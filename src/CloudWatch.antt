-- ===== src/CloudWatch.antt =====
-- aws/logger/lib/cloud-watch-logger-provider.ts: how log events are cut into messages and sent in
-- batches. A JavaScript string is the list of its UTF-16 code units. A log event is a value of a
-- type `E`, with its timestamp and the text of its `toString()` as functions.
pub mod Text
pub mod Batches
pub mod Process
use mcma_libraries.Prelude.{
  ℕ, zero, suc, ◌+◌, ◌-◌, ◌*◌, Bool, ◌&&◌, List, [], ◌∷◌, ◌++◌, Result, ok, err, ◌>>=◌, leb, ltb,
  if◌then◌else◌, length,
}

-- `codePointAt` for the code unit at the head of a suffix of the text.
abbrev is_high : ℕ → Bool
is_high u = leb 0xd800 u && leb u 0xdbff

abbrev is_low : ℕ → Bool
is_low u = leb 0xdc00 u && leb u 0xdfff

abbrev is_pair : ℕ → ℕ → Bool
is_pair u v = is_high u && is_low v

pub code_point_at : ℕ → List ℕ → ℕ
code_point_at u [] = u
code_point_at u (v ∷ rest) =
    if is_pair u v then (u - 0xd800) * 0x400 + (v - 0xdc00) + 0x10000 else u

-- A code point is never negative here, so the first test of the source has no counterpart.
pub code_point_utf8_byte_length : ℕ → Result ℕ
code_point_utf8_byte_length c =
    if leb c 0x7f
    then ok 1
    else if leb c 0x7ff
    then ok 2
    else if leb c 0xffff
    then ok 3
    else if leb c 0x10ffff
    then ok 4
    else err "Invalid codepoint value"

pub record ByteSubString : Type 0 where
  pub text : List ℕ
  pub byte_length : ℕ

-- The loop of `byteSubString`: `taken` is `str.substring(0, i)`, and `str` is `taken ++ rest`.
byte_sub_string_from : ℕ → ℕ → List ℕ → List ℕ → Result ByteSubString
byte_sub_string_from max len taken [] = ok (record { text = taken; byte_length = len })
byte_sub_string_from max len taken (u ∷ rest) =
    code_point_utf8_byte_length (code_point_at u rest) >>= λ n.
    let next = byte_sub_string_from max (len + n) (taken ++ u ∷ []) rest in
    if ltb max (len + n) then ok (record { text = taken; byte_length = len }) else next

unfoldable pub byte_sub_string : List ℕ → ℕ → Result ByteSubString
unfolding byte_sub_string_from code_point_utf8_byte_length code_point_at
byte_sub_string str max = byte_sub_string_from max 0 [] str

abbrev pub max_message_size : ℕ
max_message_size = 262118

abbrev pub max_request_size : ℕ
max_request_size = 1048576

pub record PreparedLogEvent : Type 0 where
  pub message : List ℕ
  pub timestamp : ℕ
  pub byte_length : ℕ

pub record InputLogEvent : Type 0 where
  pub message : List ℕ
  pub timestamp : ℕ

-- `message.substring(n)`, which is empty past the end.
abbrev pub substring : ℕ → List ℕ → List ℕ
substring zero message = message
substring (suc n) [] = []
substring (suc n) (u ∷ message) = substring n message

-- The loop `while (message.length)`. It runs on fuel, and reports when the fuel is used up.
unfoldable pub split_message : ℕ → ℕ → List ℕ → Result (List PreparedLogEvent)
unfolding byte_sub_string
split_message fuel timestamp [] = ok []
split_message zero timestamp (u ∷ message) = err "out of fuel"
split_message (suc fuel) timestamp (u ∷ message) =
    byte_sub_string (u ∷ message) max_message_size >>= λ result.
    split_message fuel timestamp (substring (length result.text) (u ∷ message)) >>= λ rest. ok (
      record { message = result.text; timestamp = timestamp; byte_length = result.byte_length + 26 }
      ∷ rest)

module _ {E : Type 0} (timestamp_of : E → ℕ) (to_string : E → List ℕ) where
  abbrev pub cut : E → Result (List PreparedLogEvent)
  cut e = split_message (length (to_string e)) (timestamp_of e) (to_string e)

  -- The loop that empties `this.logEvents` into `preparedLogEvents`. What is left of the queue is
  -- returned too: where a call throws, the events behind the failing one stay in it.
  unfoldable pub prepare : List PreparedLogEvent → List E → Result (List PreparedLogEvent) × List E
  prepare prepared [] = (ok prepared, [])
  prepare prepared (e ∷ events) = elim (cut e) [
    | ok pieces ↦ prepare (prepared ++ pieces) events
    | err message ↦ (err message, events)
  ]

abbrev pub to_input : PreparedLogEvent → InputLogEvent
to_input p = record { message = p.message; timestamp = p.timestamp }

-- The loop over `preparedLogEvents`, with `inputLogEvents` and `inputLogEventsByteLength`: the
-- requests that are sent, in order, the last one after the loop included.
unfoldable pub batch : List InputLogEvent → ℕ → List PreparedLogEvent → List (List InputLogEvent)
batch input size [] = input ∷ []
batch input size (p ∷ prepared) =
    let full = input ∷ batch (to_input p ∷ []) p.byte_length prepared in
    let room = batch (input ++ to_input p ∷ []) (size + p.byte_length) prepared in
    if ltb max_request_size (size + p.byte_length) then full else room
