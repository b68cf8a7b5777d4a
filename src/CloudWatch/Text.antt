-- ===== src/CloudWatch/Text.antt =====
-- Cutting a text into messages of a bounded byte size: `byteSubString` and the loop around it.
use mcma_libraries.Prelude.{
  Result, length-append, join, map, ℕ, zero, suc, ◌+◌, ◌≤◌, ◌<◌, ◌≡◌, refl, sym, ◌∙◌, ap, subst,
  true, false, List, [], ◌∷◌, ◌++◌, append-nil, append_assoc, ◌≢◌, inl, inr, ok, ltb, leb,
  if◌then◌else◌, All, length, arith, Bool-cases,
}
use mcma_libraries.CloudWatch.{
  is_pair, code_point_at, code_point_utf8_byte_length, ByteSubString, byte_sub_string_from,
  byte_sub_string, max_message_size, PreparedLogEvent, substring, split_message,
}

-- The list is a text of JavaScript: every code unit is below 2^16.
abbrev pub IsText : List ℕ → Type 0
IsText t = All (λ u. u < 0x10000) t

code_point_at_lt :
    (u : ℕ) (rest : List ℕ) → u < 0x10000 → IsText rest → code_point_at u rest < 0x110000
unfolding code_point_at
code_point_at_lt u [] h k = omega arith
code_point_at_lt u (v ∷ rest) h k = ground arith

-- The number of bytes that the source counts for the code unit `u` in front of `rest`.
width : ℕ → ℕ
width c = if leb c 0x7f then 1 else if leb c 0x7ff then 2 else if leb c 0xffff then 3 else 4

width_le : (c : ℕ) → (1 ≤ width c) × (width c ≤ 4)
unfolding width
width_le c = ground arith

byte_length-width : (c : ℕ) → c < 0x110000 → code_point_utf8_byte_length c ≡ ok (width c)
unfolding code_point_utf8_byte_length width
byte_length-width c h = ground arith

-- The bytes that the source counts for a text that stands in front of `rest`.
counted : List ℕ → List ℕ → ℕ
counted [] rest = 0
counted (u ∷ t) rest = width (code_point_at u (t ++ rest)) + counted t rest

-- The number of bytes of the UTF-8 encoding of a text: four for a surrogate pair, three for a
-- surrogate on its own, which is sent as U+FFFD.
unfoldable pub utf8_length : List ℕ → ℕ
unfolding width
utf8_length [] = 0
utf8_length (u ∷ []) = width u
utf8_length (u ∷ v ∷ t) =
    let paired = 4 + utf8_length t in
    let alone = width u + utf8_length (v ∷ t) in if is_pair u v then paired else alone

width-code_point_at :
    (u v : ℕ) (t : List ℕ) → is_pair u v ≡ true → width (code_point_at u (v ∷ t)) ≡ 4
unfolding width code_point_at
width-code_point_at u v t h = ground arith

-- What the loop of `byteSubString` returns: it moves `more` from `rest` behind `taken`.
record Cut (max len : ℕ) (taken rest : List ℕ) (r : ByteSubString) : Type 0 where
  more : List ℕ
  left : List ℕ
  text : r.text ≡ taken ++ more
  parts : rest ≡ more ++ left
  bytes : r.byte_length ≡ len + counted more left
  bound : r.byte_length ≤ max
  progress : len + 4 ≤ max → rest ≢ [] → more ≢ []

module _ (max len : ℕ) (taken : List ℕ) where
  Cut-stop :
      (rest : List ℕ)
      → len ≤ max
      → (len + 4 ≤ max → rest ≢ [] → ⊥)
      → Cut max len taken rest (record { text = taken; byte_length = len })
  unfolding counted
  Cut-stop rest h stuck = record {
    more = [];
    left = rest;
    text = sym (append-nil taken);
    parts = refl;
    bytes = omega arith;
    bound = h;
    progress = λ room full. absurd (stuck room full);
  }

  Cut-cons :
      (u : ℕ) (rest : List ℕ) {r : ByteSubString}
      → Cut max (len + width (code_point_at u rest)) (taken ++ u ∷ []) rest r
      → Cut max len taken (u ∷ rest) r
  unfolding counted
  Cut-cons u rest c = record {
    more = u ∷ c.more;
    left = c.left;
    text = c.text ∙ append_assoc taken (u ∷ []) c.more;
    parts = ap (◌∷◌ u) c.parts;
    bytes = omega (arith, c.bytes, ap (λ (t : List ℕ). width (code_point_at u t)) c.parts);
    bound = c.bound;
    progress = λ _ _. cc;
  }

byte_sub_string_from-Cut :
    (max len : ℕ) (taken rest : List ℕ)
    → IsText rest
    → len ≤ max
    → (r : ByteSubString) × (byte_sub_string_from max len taken rest ≡ ok r)
      × Cut max len taken rest r
unfolding byte_sub_string_from
byte_sub_string_from-Cut max len taken [] h k =
    (record { text = taken; byte_length = len }, refl, Cut-stop max len taken [] k (λ _ e. e refl))
byte_sub_string_from-Cut max len taken (u ∷ rest) (p, h) k =
    let n : ℕ = width (code_point_at u rest) in
    let counts = byte_length-width (code_point_at u rest) (code_point_at_lt u rest p h) in
    let (small, large) = width_le (code_point_at u rest) in
    elim (Bool-cases (ltb max (len + n))) [
      | inl full ↦ (
        record { text = taken; byte_length = len },
        rw counts (rw full),
        Cut-stop max len taken (u ∷ rest) k (λ room _. ground arith),
      )
      | inr room ↦
          let (r, e, c) =
            byte_sub_string_from-Cut max (len + n) (taken ++ u ∷ []) rest h (ground arith) in
          (r, rw counts (rw room e), Cut-cons max len taken u rest c)
    ]

code_point_at_alone : (u v : ℕ) (t : List ℕ) → is_pair u v ≡ false → code_point_at u (v ∷ t) ≡ u
unfolding code_point_at
code_point_at_alone u v t h = ground arith

utf8_length-le : (t rest : List ℕ) → IsText t → utf8_length t ≤ counted t rest
unfolding utf8_length counted
utf8_length-le [] rest h = omega arith
utf8_length-le (u ∷ []) rest h = alone rest
  where
    alone : (r : List ℕ) → width u ≤ width (code_point_at u r) + 0
    alone [] = unfold code_point_at in omega arith
    alone (v ∷ r) = unfold code_point_at width in ground arith
utf8_length-le (u ∷ v ∷ t) rest (p, (q, h)) = ground (
  arith,
  utf8_length-le t rest h,
  utf8_length-le (v ∷ t) rest (q, h),
  width-code_point_at u v (t ++ rest),
  code_point_at_alone u v (t ++ rest),
  width_le (code_point_at v (t ++ rest)),
)

IsText-append : (s t : List ℕ) → IsText (s ++ t) → IsText s × IsText t
IsText-append [] t h = (tt, h)
IsText-append (u ∷ s) t (p, h) = let (a, b) = IsText-append s t h in ((p, a), b)

IsText-parts : (s t : List ℕ) {r : List ℕ} → r ≡ s ++ t → IsText r → IsText s × IsText t
IsText-parts s t e h = IsText-append s t (subst IsText e h)

substring-append : (s t : List ℕ) → substring (length s) (s ++ t) ≡ t
substring-append [] t = refl
substring-append (u ∷ s) t = substring-append s t

substring-parts : (s t : List ℕ) {a r : List ℕ} → a ≡ s → r ≡ s ++ t → substring (length a) r ≡ t
substring-parts s t p q = rw (p, q) (substring-append s t)

-- A piece of the text of one log event: not empty, with the timestamp of the event, and with a
-- byte length that is no less than that of its UTF-8 encoding with the overhead of 26 bytes.
pub record IsPiece (timestamp : ℕ) (p : PreparedLogEvent) : Type 0 where
  pub filled : p.message ≢ []
  pub stamped : p.timestamp ≡ timestamp
  pub measured : utf8_length p.message + 26 ≤ p.byte_length
  pub small : p.byte_length ≤ max_message_size + 26

-- What the loop over one message returns.
pub record Pieces (timestamp : ℕ) (message : List ℕ) (r : Result (List PreparedLogEvent))
    : Type 0 where
  pub pieces : List PreparedLogEvent
  pub returned : r ≡ ok pieces
  pub whole : join (map (λ p. p.message) pieces) ≡ message
  pub sound : All (IsPiece timestamp) pieces

byte_sub_string-Cut :
    (message : List ℕ)
    → IsText message
    → (r : ByteSubString) × (byte_sub_string message max_message_size ≡ ok r)
      × Cut max_message_size 0 [] message r
unfolding byte_sub_string
byte_sub_string-Cut message h =
    byte_sub_string_from-Cut max_message_size 0 [] message h (omega arith)

Cut-IsPiece :
    (timestamp u : ℕ) (message : List ℕ) {r : ByteSubString}
    → IsText (u ∷ message)
    → Cut max_message_size 0 [] (u ∷ message) r
    → IsPiece timestamp
        (record { message = r.text; timestamp = timestamp; byte_length = r.byte_length + 26 })
Cut-IsPiece timestamp u message {r} h c =
    let (start, _) = IsText-parts c.more c.left c.parts h in
    record {
      filled = rw c.text (c.progress (omega arith) (cc));
      stamped = refl;
      measured = rw (c.text, c.bytes) (omega (arith, utf8_length-le c.more c.left start));
      small = omega (arith, c.bound);
    }

length-pos : (t : List ℕ) → t ≢ [] → 0 < length t
length-pos [] h = absurd (h refl)
length-pos (u ∷ t) h = omega arith

-- With as much fuel as the message has code units, the loop ends, and cuts the message into pieces
-- that are sound and that make up the message.
pub split_message-Pieces :
    (fuel timestamp : ℕ) (message : List ℕ)
    → IsText message
    → length message ≤ fuel
    → Pieces timestamp message (split_message fuel timestamp message)
unfolding split_message
split_message-Pieces fuel timestamp [] h k = record {
  pieces = [];
  returned = refl;
  whole = refl;
  sound = tt;
}
split_message-Pieces zero timestamp (u ∷ message) h k = absurd (omega arith)
split_message-Pieces (suc fuel) timestamp (u ∷ message) h k =
    let (r, e, c) = byte_sub_string-Cut (u ∷ message) h in
    let rest_eq : substring (length r.text) (u ∷ message) ≡ c.left =
      substring-parts c.more c.left c.text c.parts in
    let (_, later) = IsText-parts c.more c.left c.parts h in
    let shorter : length c.left ≤ fuel = omega (
      arith,
      length-pos c.more (c.progress (omega arith) (cc)),
      length-append {0} c.more c.left,
      ap (λ (t : List ℕ). length t) c.parts,
    ) in
    let ih = split_message-Pieces fuel timestamp c.left later shorter in
    record {
      pieces =
          record { message = r.text; timestamp = timestamp; byte_length = r.byte_length + 26 }
          ∷ ih.pieces;
      returned = rw e (rw rest_eq (rw ih.returned));
      whole = rw (c.text, ih.whole) (sym c.parts);
      sound = (Cut-IsPiece timestamp u message h c, ih.sound);
    }
