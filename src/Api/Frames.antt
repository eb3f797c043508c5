-- ===== src/Api/Frames.antt =====
-- The frames of crates/aios-local-api/src/lib.rs: the length in four bytes, then the payload. A stream
-- that is read is the bytes that arrive and whether it breaks after them; a stream that is written is
-- the bytes sent and how many more it takes.
use ai_os.Prelude.{
  ℕ, ◌+◌, ◌-◌, ◌*◌, ◌/◌, ◌%◌, ◌<◌, ◌≤◌, ◌≡◌, refl, ap, ◌∙◌, arith, inl, inr, Bool, false, ◌||◌,
  List, [], ◌∷◌, ◌++◌, Option, none, some, ltb, leb, nat_beq, if◌then◌else◌, length, length-append,
  take, drop, is_empty, append_assoc, Outcome, returns, fails, Bool-cases, Outcome-cases,
}
use ai_os.Api.{LocalApiError, frame_too_large, protocol, io}

pub record Arriving : Type 0 where
  pub coming : List ℕ
  pub breaks : Bool

pub record Sending : Type 0 where
  pub sent : List ℕ
  pub room : ℕ

-- `Read::read_exact`
unfoldable pub read_exact : ℕ → Arriving → Outcome Arriving (Unit {0}) (List ℕ)
read_exact n stream =
    if ltb (length stream.coming) n
    then fails tt (record stream { coming = [] })
    else returns (take n stream.coming) (record stream { coming = drop n stream.coming })

-- `u32::from_be_bytes`
unfoldable pub from_be_bytes : ℕ → List ℕ → ℕ
from_be_bytes value [] = value
from_be_bytes value (b ∷ bytes) = from_be_bytes (value * 256 + b) bytes

-- `u32::to_be_bytes`
unfoldable pub to_be_bytes : ℕ → List ℕ
to_be_bytes n = n / 16777216 % 256 ∷ n / 65536 % 256 ∷ n / 256 % 256 ∷ n % 256 ∷ []

-- The end of `read_frame`, with the header read.
unfoldable pub read_payload : ℕ → ℕ → Arriving → Outcome Arriving LocalApiError (Option (List ℕ))
unfolding read_exact
read_payload max_frame_bytes size stream =
    if nat_beq size 0
    then fails protocol stream
    else if ltb max_frame_bytes size
    then fails frame_too_large stream
    else elim (read_exact size stream) [
      | fails _ stream' ↦ fails protocol stream'
      | returns payload stream' ↦ returns (some payload) stream'
    ]

unfoldable pub read_frame : ℕ → Arriving → Outcome Arriving LocalApiError (Option (List ℕ))
unfolding read_exact from_be_bytes read_payload
read_frame max_frame_bytes stream = elim stream.coming [
  | [] ↦ if stream.breaks then fails io stream else returns none stream
  | first ∷ rest ↦ elim (read_exact 3 (record stream { coming = rest })) [
    | fails _ stream' ↦ fails protocol stream'
    | returns header stream' ↦ read_payload max_frame_bytes (from_be_bytes first header) stream'
  ]
]

-- `Write::write_all`
unfoldable pub write_all : List ℕ → Sending → Outcome Sending LocalApiError (Unit {0})
write_all bytes stream =
    if ltb stream.room (length bytes)
    then fails io (record { sent = stream.sent ++ take stream.room bytes; room = 0 })
    else returns tt (record { sent = stream.sent ++ bytes; room = stream.room - length bytes })

abbrev pub u32_mod : ℕ
u32_mod = 4294967296

unfoldable pub write_frame : ℕ → List ℕ → Sending → Outcome Sending LocalApiError (Unit {0})
unfolding write_all to_be_bytes
write_frame max_frame_bytes payload stream =
    if is_empty payload || ltb max_frame_bytes (length payload)
    then fails frame_too_large stream
    else if leb u32_mod (length payload)
    then fails frame_too_large stream
    else elim (write_all (to_be_bytes (length payload)) stream) [
      | fails e stream' ↦ fails e stream'
      | returns _ stream' ↦ write_all payload stream'
    ]

-- What a frame is.
unfoldable pub frame_of : List ℕ → List ℕ
frame_of payload = to_be_bytes (length payload) ++ payload

from_be-to_be :
    (n : ℕ)
    → n < u32_mod
    → from_be_bytes (n / 16777216 % 256) (n / 65536 % 256 ∷ n / 256 % 256 ∷ n % 256 ∷ []) ≡ n
unfolding from_be_bytes
from_be-to_be n h = omega arith

take-append : (xs ys : List ℕ) → take (length xs) (xs ++ ys) ≡ xs
take-append [] ys = refl
take-append (x ∷ xs) ys = ap (λ zs. x ∷ zs) (take-append xs ys)

drop-append : (xs ys : List ℕ) → drop (length xs) (xs ++ ys) ≡ ys
drop-append [] ys = refl
drop-append (x ∷ xs) ys = drop-append xs ys

read_exact-append :
    (xs ys : List ℕ) (breaks : Bool)
    → read_exact (length xs) (record { coming = xs ++ ys; breaks = breaks })
      ≡ returns xs (record { coming = ys; breaks = breaks })
unfolding read_exact
read_exact-append xs ys breaks =
    let enough : ltb (length (xs ++ ys)) (length xs) ≡ false =
      ground (arith, length-append xs ys) in
    rw (enough, take-append xs ys, drop-append xs ys) refl

read_payload-append :
    (max_frame_bytes : ℕ) (payload rest : List ℕ) (breaks : Bool)
    → 0 < length payload
    → length payload ≤ max_frame_bytes
    → read_payload max_frame_bytes
        (length payload)
        (record { coming = payload ++ rest; breaks = breaks })
      ≡ returns (some payload) (record { coming = rest; breaks = breaks })
unfolding read_payload
read_payload-append max_frame_bytes payload rest breaks some_bytes fits =
    let full : nat_beq (length payload) 0 ≡ false = ground arith in
    let allowed : ltb max_frame_bytes (length payload) ≡ false = ground arith in
    rw (full, allowed, read_exact-append payload rest breaks) refl

-- A frame that was written, then read with what follows it, gives the payload, and leaves what follows.
pub read_frame-frame_of :
    (max_frame_bytes : ℕ) (payload rest : List ℕ) (breaks : Bool)
    → 0 < length payload
    → length payload ≤ max_frame_bytes
    → length payload < u32_mod
    → read_frame max_frame_bytes (record { coming = frame_of payload ++ rest; breaks = breaks })
      ≡ returns (some payload) (record { coming = rest; breaks = breaks })
unfolding read_frame frame_of to_be_bytes
read_frame-frame_of max_frame_bytes payload rest breaks some_bytes fits small =
    let n = length payload in
    rw
      (
        read_exact-append (n / 65536 % 256 ∷ n / 256 % 256 ∷ n % 256 ∷ []) (payload ++ rest) breaks,
        from_be-to_be n small,
        read_frame,
      )
      (read_payload-append max_frame_bytes payload rest breaks some_bytes fits)

non_empty : (payload : List ℕ) → is_empty payload ≡ false → 0 < length payload
non_empty [] e = cc
non_empty (b ∷ payload) e = omega arith

write_all-sent :
    (bytes : List ℕ) (stream stream' : Sending)
    → write_all bytes stream ≡ returns tt stream'
    → stream'.sent ≡ stream.sent ++ bytes
unfolding write_all
write_all-sent bytes stream stream' e = ground arith

pub write_frame-frame_of :
    (max_frame_bytes : ℕ) (payload : List ℕ) (stream stream' : Sending)
    → write_frame max_frame_bytes payload stream ≡ returns tt stream'
    → (0 < length payload)
      × (length payload ≤ max_frame_bytes)
      × (length payload < u32_mod)
      × (stream'.sent ≡ stream.sent ++ frame_of payload)
unfolding write_frame frame_of
write_frame-frame_of max_frame_bytes payload stream stream' e =
    elim (Bool-cases (is_empty payload || ltb max_frame_bytes (length payload))) [
      | inl bad ↦ let e' = rw (bad, write_frame) at e in cc
      | inr good ↦ elim (Bool-cases (leb u32_mod (length payload))) [
        | inl large ↦ let e' = rw (good, large, write_frame) at e in cc
        | inr small ↦ elim (Outcome-cases (write_all (to_be_bytes (length payload)) stream)) [
          | inr (x, v, w) ↦ let e' = rw (good, small, w, write_frame) at e in cc
          | inl (_, v, w) ↦
              let e' = rw (good, small, w, write_frame) at e in
              (
                non_empty payload (ground arith),
                ground arith,
                ground arith,
                write_all-sent payload v stream' e'
                    ∙ ap (λ x. x ++ payload)
                        (write_all-sent (to_be_bytes (length payload)) stream v w)
                    ∙ append_assoc stream.sent (to_be_bytes (length payload)) payload,
              )
        ]
      ]
    ]
