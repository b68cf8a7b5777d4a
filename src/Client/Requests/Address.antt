-- ===== src/Client/Requests/Address.antt =====
-- Where a request goes that has a base.
use mcma_libraries.Prelude.{
  ◌≡◌, refl, sym, subst, true, false, String, ok, err, bind-ok, is_empty, Bool-cases, inl, inr,
  starts_with, starts_with_iff,
}
use Prim.Native.String.{◌++◌}
use mcma_libraries.Client.Requests.{
  without_slashes_at_end, without_slashes_at_start, is_absolute, mismatch, full_address, given,
  resolve_address,
}

-- An address of a base: the base itself, an address under it, or one that continues its text.
pub data IsWithin (base : String) : String → Type 0 where
  whole : (url : String) → url ≡ base → IsWithin base url
  below : (url rest : String) → url ≡ without_slashes_at_end base ++ "/" ++ rest → IsWithin base url
  onwards : (url rest : String) → is_absolute url ≡ true → url ≡ base ++ rest → IsWithin base url

full_address-IsWithin :
    (method base url out : String)
    → is_empty base ≡ false
    → full_address method base url ≡ ok out
    → IsWithin base out
unfolding full_address
full_address-IsWithin method base url out there h = elim (Bool-cases (is_empty url)) [
  | inl empty ↦
      let e : full_address method base url ≡ ok base = rw (there, empty) refl in
      whole out (cc (e, h))
  | inr n ↦ elim (Bool-cases (is_absolute url)) [
    | inl absolute ↦ elim (Bool-cases (starts_with url base)) [
      | inl starts ↦
          let e : full_address method base url ≡ ok url = rw (there, n, absolute, starts) refl in
          let same : url ≡ out = cc (e, h) in
          let (rest, f) = (starts_with_iff url base).0 starts in
          subst (IsWithin base) same (onwards url rest absolute (sym f))
      | inr other ↦
          let e : full_address method base url ≡ err (mismatch method base url) =
            rw (there, n, absolute, other) refl in
          cc (e, h)
    ]
    | inr relative ↦
        let e : full_address method base url
            ≡ ok (without_slashes_at_end base ++ "/" ++ without_slashes_at_start url) =
          rw (there, n, relative) refl in
        below out (without_slashes_at_start url) (cc (e, h))
  ]
]

given-same : (url out : String) → given url ≡ ok out → url ≡ out
unfolding given
given-same url out h = elim (Bool-cases (is_empty url)) [
  | inl empty ↦
      let e : given url ≡ err "HttpClient: Missing url in request config" = rw empty refl in
      cc (e, h)
  | inr there ↦ let e : given url ≡ ok url = rw there refl in cc (e, h)
]

-- Where a request has a base that is not empty, it is refused, or it is sent to the base, to an
-- address under it, or, for a given address that is absolute, to an address whose text begins with
-- the base.
pub resolve_address-IsWithin :
    (method base url out : String)
    → is_empty base ≡ false
    → resolve_address method base url ≡ ok out
    → IsWithin base out
unfolding resolve_address
resolve_address-IsWithin method base url out there h =
    let (full, e, f) = bind-ok (full_address method base url) given out h in
    subst (IsWithin base) (given-same full out f)
      (full_address-IsWithin method base url full there e)
