-- ===== src/Documents/RoundTrip.antt =====
-- Which documents come back from a table as they were.
use mcma_libraries.Prelude.{◌≡◌, refl, ap, true, false, none, some}
use mcma_libraries.Core.Dates.{is_valid_date_string}
use mcma_libraries.Documents.{
  Value, undefined, null, boolean, number, text, date, array, object, Items, nil, cons, Fields, end,
  field, DateTexts, serialize_value, serialize_items, serialize, deserialize_value,
  deserialize_items, deserialize,
}

-- What the language documents of the texts of dates, for the times that have four digits for the
-- year.
pub record DateLaws {T : Type 0} (dates : DateTexts T) (IsCommon : T → Type 0) : Type 0 where
  pub iso_valid : (t : T) → IsCommon t → is_valid_date_string (dates.to_iso_string t) ≡ true
  pub iso_parsed : (t : T) → IsCommon t → dates.parse_date (dates.to_iso_string t) ≡ some t

module _ {N T : Type 0} where
  -- Neither null nor undefined nor a date occurs.
  abbrev mutual
    pub IsPlain : Value N T → Type 0
    IsPlain undefined = ⊥
    IsPlain null = ⊥
    IsPlain (boolean b) = Unit
    IsPlain (number n) = Unit
    IsPlain (text s) = Unit
    IsPlain (date t) = ⊥
    IsPlain (array xs) = ArePlain xs
    IsPlain (object fs) = HasPlain fs

    pub ArePlain : Items N T → Type 0
    ArePlain nil = Unit
    ArePlain (cons v vs) = IsPlain v × ArePlain vs

    pub HasPlain : Fields N T → Type 0
    HasPlain end = Unit
    HasPlain (field k v fs) = IsPlain v × HasPlain fs

module _ {N T : Type 0} (IsCommon : T → Type 0) where
  -- Neither null nor undefined nor an invalid or uncommon date occurs, nor a text that counts as a
  -- date.
  abbrev mutual
    pub IsStorable : Value N T → Type 0
    IsStorable undefined = ⊥
    IsStorable null = ⊥
    IsStorable (boolean b) = Unit
    IsStorable (number n) = Unit
    IsStorable (text s) = is_valid_date_string s ≡ false
    IsStorable (date (some t)) = IsCommon t
    IsStorable (date none) = ⊥
    IsStorable (array xs) = AreStorable xs
    IsStorable (object fs) = HasStorable fs

    pub AreStorable : Items N T → Type 0
    AreStorable nil = Unit
    AreStorable (cons v vs) = IsStorable v × AreStorable vs

    pub HasStorable : Fields N T → Type 0
    HasStorable end = Unit
    HasStorable (field k v fs) = IsStorable v × HasStorable fs

module _ {N T : Type 0} {dates : DateTexts T} {IsCommon : T → Type 0}
    (laws : DateLaws dates IsCommon) where
  mutual
    unfolding serialize_value deserialize_value

    deserialize-serialize_value :
        (v : Value N T)
        → IsStorable IsCommon v
        → deserialize_value dates (serialize_value dates v) ≡ v
    deserialize-serialize_value undefined h = elim h [ ]
    deserialize-serialize_value null h = elim h [ ]
    deserialize-serialize_value (boolean b) h = refl
    deserialize-serialize_value (number n) h = refl
    deserialize-serialize_value (text s) h = rw h refl
    deserialize-serialize_value (date (some t)) h =
        rw (laws.iso_valid t h) (ap date (laws.iso_parsed t h))
    deserialize-serialize_value (date none) h = elim h [ ]
    deserialize-serialize_value (array xs) h = ap array (deserialize-serialize_items xs h)
    deserialize-serialize_value (object fs) h = ap object (deserialize-serialize_fields fs h)

    deserialize-serialize_items :
        (xs : Items N T)
        → AreStorable IsCommon xs
        → deserialize_items dates (serialize_items dates xs) ≡ xs
    deserialize-serialize_items nil h = refl
    deserialize-serialize_items (cons v vs) (h, hs) =
        cc (deserialize-serialize_value v h, deserialize-serialize_items vs hs)

    deserialize-serialize_fields :
        (fs : Fields N T) → HasStorable IsCommon fs → deserialize dates (serialize dates fs) ≡ fs
    deserialize-serialize_fields end h = refl
    deserialize-serialize_fields (field k v fs) (h, hs) =
        cc (deserialize-serialize_value v h, deserialize-serialize_fields fs hs)

  mutual
    unfolding serialize_value

    serialize_value-IsPlain :
        (v : Value N T) → IsStorable IsCommon v → IsPlain (serialize_value dates v)
    serialize_value-IsPlain undefined h = h
    serialize_value-IsPlain null h = h
    serialize_value-IsPlain (boolean b) h = tt
    serialize_value-IsPlain (number n) h = tt
    serialize_value-IsPlain (text s) h = tt
    serialize_value-IsPlain (date (some t)) h = tt
    serialize_value-IsPlain (date none) h = elim h [ ]
    serialize_value-IsPlain (array xs) h = serialize_items-ArePlain xs h
    serialize_value-IsPlain (object fs) h = serialize-HasPlain fs h

    serialize_items-ArePlain :
        (xs : Items N T) → AreStorable IsCommon xs → ArePlain (serialize_items dates xs)
    serialize_items-ArePlain nil h = tt
    serialize_items-ArePlain (cons v vs) (h, hs) =
        (serialize_value-IsPlain v h, serialize_items-ArePlain vs hs)

    serialize-HasPlain : (fs : Fields N T) → HasStorable IsCommon fs → HasPlain (serialize dates fs)
    serialize-HasPlain end h = tt
    serialize-HasPlain (field k v fs) (h, hs) =
        (serialize_value-IsPlain v h, serialize-HasPlain fs hs)

  -- A document that holds no null, nothing undefined, no date that is invalid or has no year of four
  -- digits, and no text that counts as a date, at any depth, is the same after `serialize` and
  -- `deserialize`, and what `serialize` makes of it holds neither null, nor anything undefined, nor a
  -- date.
  pub deserialize-serialize :
      (fs : Fields N T)
      → HasStorable IsCommon fs
      → (deserialize dates (serialize dates fs) ≡ fs) × HasPlain (serialize dates fs)
  deserialize-serialize fs h = (deserialize-serialize_fields fs h, serialize-HasPlain fs h)
