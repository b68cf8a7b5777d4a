-- ===== src/Api/Security/Refusals.antt =====
-- That the API key middleware answers where what it may call next does.
use mcma_libraries.Prelude.{refl, Result, ok, err, arith, inl, inr}
use mcma_libraries.Api.{Context, Handler, Platform, set_response_error}
use mcma_libraries.Api.Controller.Answers.{Ends, Keeps}
use mcma_libraries.Api.Security.{Secrets, Verdict, granted, unknown_key, denied, enforce, execute}

module _ {V S : Type 0} (platform : Platform V S) (secrets : Secrets S) where
  enforce-Ends :
      (verdict : Result Verdict) (next : Handler V S)
      → ((c : Context V S) → Ends platform (next c))
      → (c : Context V S) → Ends platform (enforce secrets verdict next c)
  unfolding enforce set_response_error
  enforce-Ends (err e) next ends c = tt
  enforce-Ends (ok granted) next ends c = ends c
  enforce-Ends (ok unknown_key) next ends c = record {
    has_status = omega arith;
    has_error = λ _ _. inr (inl refl);
  }
  enforce-Ends (ok denied) next ends c = record {
    has_status = omega arith;
    has_error = λ _ _. inr (inr refl);
  }

  -- The middleware calls what follows, throws, or answers 401 or 403.
  pub execute-Keeps : Keeps platform (execute secrets)
  unfolding execute
  execute-Keeps next ends c = enforce-Ends _ next ends _
