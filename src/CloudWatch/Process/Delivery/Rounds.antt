-- ===== src/CloudWatch/Process/Delivery/Rounds.antt =====
-- `processBatch` as a whole: its rounds end, and deliver what they take.
use mcma_libraries.Prelude.{
  ℕ, zero, suc, ◌+◌, ◌-◌, ◌≤◌, ◌<◌, ◌≡◌, refl, sym, subst, ◌∙◌, ap, false, String, none, some, List,
  [], ◌∷◌, ◌≢◌, inl, inr, Result, ok, err, is_nil, eq-nil_of_is_nil, length, arith, Bool-cases,
  Option-cases, ◌⊎◌,
}
use mcma_libraries.CloudWatch.{InputLogEvent, batch}
use mcma_libraries.CloudWatch.Text.{IsText}
use mcma_libraries.CloudWatch.Batches.{batch_lem, map-message, prepare-Prepared}
use mcma_libraries.CloudWatch.Process.{
  Client, World, arrive_from, arrive, find_group, verify_group, create_stream, send_all, drain,
  process_round, process_loop,
}
use mcma_libraries.CloudWatch.Process.Delivery.{
  Same, IsReady, verify_group-ready, create_stream-ready, verify_group-Same, create_stream-Same,
  send_all_lem, Delivered, Delivered-refl, Delivered-trans, Same-Delivered, arrive-Delivered,
}

module _ {E S : Type 0} where
  arrive-le : (w : World E S) → length (arrive w).arrivals ≤ length w.arrivals - 1
  unfolding arrive
  arrive-le w = shorter w.arrivals refl
    where
      shorter :
          (l : List (List E)) → w.arrivals ≡ l → length (arrive_from l w).arrivals ≤ length l - 1
      shorter [] e = rw e (omega arith)
      shorter (x ∷ l) e = omega arith

  arrive-nil :
      (w : World E S)
      → w.arrivals ≡ []
      → ((arrive w).log_events ≡ w.log_events) × ((arrive w).arrivals ≡ [])
  unfolding arrive
  arrive-nil w e = (simp (e, arrive_from), simp (e, arrive_from))

  arrive-IsReady : (w : World E S) → IsReady w → IsReady (arrive w)
  unfolding arrive
  arrive-IsReady w k = ground arith

module _ {E S : Type 0} (client : Client S) (group stream : String) (timestamp_of : E → ℕ)
    (to_string : E → List ℕ) where
  -- What one round has done when it returns: the fewer events can still arrive, and if none could,
  -- a round that did not throw leaves the queue empty.
  record Round (w : World E S) (r : Result (Unit {0})) (w' : World E S) : Type 0 where
    delivered : Delivered to_string w w'
    coming : length w'.arrivals ≤ length w.arrivals - 1
    settled : r ≡ ok tt → w.arrivals ≡ [] → w'.log_events ≡ []
    ready : IsReady w → (r ≡ ok tt) × IsReady w'

  failed-Round :
      (w w' : World E S) (e : String)
      → Same w w'
      → (IsReady w → ◌≡◌ {A = Result (Unit {0})} (err e) (ok tt))
      → Round w (err e) (arrive w')
  failed-Round w w' e same claim = record {
    delivered =
        Delivered-trans to_string (Same-Delivered to_string same) (arrive-Delivered to_string w');
    coming = omega (arith, arrive-le w', ap (λ (l : List (List E)). length l) same.coming);
    settled = λ h _. cc;
    ready = λ k. cc (claim k);
  }

  Round-after :
      (w w' u : World E S) (r : Result (Unit {0})) → Same w w' → Round w' r u → Round w r u
  Round-after w w' u r same step = record {
    delivered = Delivered-trans to_string (Same-Delivered to_string same) step.delivered;
    coming = omega (arith, step.coming, ap (λ (l : List (List E)). length l) same.coming);
    settled = λ h none_left. step.settled h (same.coming ∙ none_left);
    ready = λ k. step.ready (same.ready k);
  }

  create_stream-Same_of :
      (w : World E S) (r : Result (Unit {0})) (w' : World E S)
      → create_stream client group stream w ≡ (r, w')
      → Same w w'
  create_stream-Same_of w r w' e =
      subst (Same w) (ap (λ (p : Result (Unit {0}) × World E S). p.1) e)
        (create_stream-Same client group stream w)

  create_stream-ready_of :
      (w : World E S) (r : Result (Unit {0})) (w' : World E S)
      → create_stream client group stream w ≡ (r, w')
      → IsReady w
      → r ≡ ok tt
  create_stream-ready_of w r w' e k =
      sym (ap (λ (p : Result (Unit {0}) × World E S). p.0) e)
      ∙ create_stream-ready client group stream w k

  room :
      (rounds : ℕ) (w : World E S) (x : Unit {0}) (w' : World E S)
      → ((w.log_events ≡ []) × (0 < suc rounds)) ⊎ (length w.arrivals + 1 < suc rounds)
      → is_nil w.log_events ≡ false
      → Round w (ok x) w'
      → ((w'.log_events ≡ []) × (0 < rounds)) ⊎ (length w'.arrivals + 1 < rounds)
  room rounds w x w' (inl (e, _)) more step = cc (ap (λ (l : List E). is_nil l) e)
  room rounds w x w' (inr h) more step = by_arrivals w.arrivals refl
    where
      by_arrivals :
          (l : List (List E))
          → w.arrivals ≡ l
          → ((w'.log_events ≡ []) × (0 < rounds)) ⊎ (length w'.arrivals + 1 < rounds)
      by_arrivals [] e = inl (step.settled refl e, omega arith)
      by_arrivals (y ∷ l) e =
          inr (omega (arith, step.coming, ap (λ (k : List (List E)). length k) e))

  module _ (texts : (e : E) → IsText (to_string e)) where
    abbrev emptied : World E S → World E S
    emptied w = record w { log_events = [] }

    abbrev requests_of : World E S → List (List InputLogEvent)
    requests_of w =
        batch [] 0 (prepare-Prepared timestamp_of to_string texts [] w.log_events).pieces

    abbrev sent_world : World E S → World E S
    sent_world w = send_all client group stream (requests_of w) (emptied w)

    drain_lem :
        (w : World E S)
        → drain client group stream timestamp_of to_string w ≡ (ok tt, arrive (sent_world w))
    unfolding drain
    drain_lem w =
        let c = prepare-Prepared timestamp_of to_string texts [] w.log_events in
        rw (c.returned, drain) (rw c.returned)

    sent_world-Delivered : (w : World E S) → Delivered to_string w (sent_world w)
    sent_world-Delivered w =
        let c = prepare-Prepared timestamp_of to_string texts [] w.log_events in
        let (kept, within) = batch_lem [] 0 c.pieces (omega arith) (omega arith) c.fits in
        let (q, a, r, k) = send_all_lem client group stream (requests_of w) (emptied w) in
        record {
          taken = w.log_events;
          sent = requests_of w;
          queue = sym (simp (q, a));
          requests = r;
          content = rw kept (rw map-message c.whole);
          within = within;
        }

    sent_world-Round : (w : World E S) → Round w (ok tt) (arrive (sent_world w))
    sent_world-Round w =
        let (q, a, r, k) = send_all_lem client group stream (requests_of w) (emptied w) in
        record {
          delivered =
              Delivered-trans to_string (sent_world-Delivered w)
                (arrive-Delivered to_string (sent_world w));
          coming = omega (arith, arrive-le (sent_world w), ap (λ (l : List (List E)). length l) a);
          settled = λ _ none_left. (arrive-nil (sent_world w) (a ∙ none_left)).0 ∙ q;
          ready = λ h. (refl, arrive-IsReady (sent_world w) (k h));
        }

    sent_arrived-Round : (w : World E S) → Round w (ok tt) (arrive (sent_world (arrive w)))
    sent_arrived-Round w =
        let step = sent_world-Round (arrive w) in
        record {
          delivered = Delivered-trans to_string (arrive-Delivered to_string w) step.delivered;
          coming = omega (arith, step.coming, arrive-le w);
          settled = λ h none_left. step.settled h (arrive-nil w none_left).1;
          ready = λ k. step.ready (arrive-IsReady w k);
        }

    module _ (pages : ℕ) (ends : (s : S) → find_group client group pages none s ≢ none) where
      verify_group-ne-none : (w : World E S) → verify_group client group stream pages w ≢ none
      unfolding verify_group
      verify_group-ne-none w h = ground (arith, ends w.service)

      -- The round once the group is verified, by what `createLogStream` answers.
      verified-Round :
          (w w₁ : World E S) (x : Unit {0}) (r : Result (Unit {0})) (w₂ : World E S)
          → verify_group client group stream pages w ≡ some (ok x, w₁)
          → create_stream client group stream w₁ ≡ (r, w₂)
          → (r : Result (Unit {0})) × (w' : World E S) × (process_round client group stream
                timestamp_of to_string pages w
              ≡ some (r, w'))
            × Round w r w'
      unfolding process_round
      verified-Round w w₁ x (err e) w₂ verified created =
          let same = create_stream-Same_of w₁ (err e) w₂ created in
          (
            err e,
            arrive w₂,
            rw (verified, process_round) (rw (created, process_round) (rw created)),
            Round-after w w₁ (arrive w₂) (err e)
                (verify_group-Same client group stream pages w w₁ (ok x) verified)
                (failed-Round w₁ w₂ e same (create_stream-ready_of w₁ (err e) w₂ created)),
          )
      verified-Round w w₁ x (ok y) w₂ verified created =
          let same = create_stream-Same_of w₁ (ok y) w₂ created in
          (
            ok tt,
            arrive (sent_world (arrive w₂)),
            rw (verified, process_round)
                (rw (created, process_round) (rw created (ap some (drain_lem (arrive w₂))))),
            Round-after w w₁ (arrive (sent_world (arrive w₂))) (ok tt)
                (verify_group-Same client group stream pages w w₁ (ok x) verified)
                (Round-after w₁ w₂ (arrive (sent_world (arrive w₂))) (ok tt) same
                  (sent_arrived-Round w₂)),
          )

      process_round-Round :
          (w : World E S)
          → (r : Result (Unit {0})) × (w' : World E S) × (process_round client group stream
                timestamp_of to_string pages w
              ≡ some (r, w'))
            × Round w r w'
      unfolding process_round
      process_round-Round w = elim (Option-cases (verify_group client group stream pages w)) [
        | inl nothing ↦ absurd (verify_group-ne-none w nothing)
        | inr ((err e, w₁), verified) ↦ (
          err e,
          arrive w₁,
          rw (verified, process_round),
          failed-Round w w₁ e (verify_group-Same client group stream pages w w₁ (err e) verified)
              (verify_group-ready client group stream pages w w₁ (err e) verified),
        )
        | inr ((ok x, w₁), verified) ↦ verified-Round w w₁ x _ _ verified refl
      ]

      -- The rest of the loop behind its first round, with the claim for the later rounds.
      next-Round :
          (rounds : ℕ) (w : World E S) (r : Result (Unit {0})) (w' : World E S)
          → ((w.log_events ≡ []) × (0 < suc rounds)) ⊎ (length w.arrivals + 1 < suc rounds)
          → is_nil w.log_events ≡ false
          → process_round client group stream timestamp_of to_string pages w ≡ some (r, w')
          → Round w r w'
          → ((u : World E S)
              → ((u.log_events ≡ []) × (0 < rounds)) ⊎ (length u.arrivals + 1 < rounds)
              → (r : Result (Unit {0})) × (w' : World E S) × (process_loop client group stream
                    timestamp_of to_string pages rounds u
                  ≡ some (r, w'))
                × Delivered to_string u w'
                × (r ≡ ok tt → w'.log_events ≡ [])
                × (IsReady u → r ≡ ok tt))
          → (r : Result (Unit {0})) × (w' : World E S) × (process_loop client group stream
                timestamp_of to_string pages
                (suc rounds)
                w
              ≡ some (r, w'))
            × Delivered to_string w w'
            × (r ≡ ok tt → w'.log_events ≡ [])
            × (IsReady w → r ≡ ok tt)
      unfolding process_loop
      next-Round rounds w (err e) w' h more stepped step later = (
        err e,
        w',
        rw (more, process_loop) (rw (stepped, process_loop)),
        step.delivered,
        λ h'. cc,
        λ k. (step.ready k).0,
      )
      next-Round rounds w (ok x) w' h more stepped step later =
          let (r, u, looped, delivered, empty, fine) = later w' (room rounds w x w' h more step) in
          (
            r,
            u,
            rw (more, process_loop) (rw (stepped, process_loop) looped),
            Delivered-trans to_string step.delivered delivered,
            empty,
            λ k. fine (step.ready k).1,
          )

      -- The loop from a queue that is empty, or with more rounds left than lists of events can
      -- still arrive.
      pub process_loop-Round :
          (rounds : ℕ) (w : World E S)
          → ((w.log_events ≡ []) × (0 < rounds)) ⊎ (length w.arrivals + 1 < rounds)
          → (r : Result (Unit {0})) × (w' : World E S) × (process_loop client group stream
                timestamp_of to_string pages rounds w
              ≡ some (r, w'))
            × Delivered to_string w w'
            × (r ≡ ok tt → w'.log_events ≡ [])
            × (IsReady w → r ≡ ok tt)
      unfolding process_loop
      process_loop-Round zero w (inl h) = absurd (omega arith)
      process_loop-Round zero w (inr h) = absurd (omega arith)
      process_loop-Round (suc rounds) w h = elim (Bool-cases (is_nil w.log_events)) [
        | inl done ↦ (
          ok tt,
          w,
          rw (done, process_loop),
          Delivered-refl to_string w,
          λ _. eq-nil_of_is_nil w.log_events done,
          λ _. refl,
        )
        | inr more ↦
            let step = process_round-Round w in
            next-Round rounds w step.0 step.1 h more step.2 step.3 (process_loop-Round rounds)
      ]
