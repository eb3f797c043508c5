-- ===== src/Core/Address.antt =====
-- What the program uses of Rust's `std::net`: whether a text parses as an `IpAddr`. A reader takes
-- the rest of the text and gives the value with what is left, as the standard library's parser.
use ai_os.Prelude.{
  ℕ, zero, suc, ◌+◌, ◌-◌, ◌*◌, ◌≡◌, refl, Bool, true, false, ◌&&◌, ◌||◌, not, List, [], ◌∷◌, Option,
  none, some, ltb, leb, nat_beq, if◌then◌else◌, is_empty, all, length, ◌++◌,
}
use ai_os.Core.Text.{Text, codes, is_ascii_digit}

abbrev Reader : Type 0 → Type 0
Reader A = Text → Option (A × Text)

infixl 5 ◌>>=◌
abbrev ◌>>=◌ :
    {A B : Type 0} → Option (A × Text) → (A → Text → Option (B × Text)) → Option (B × Text)
none >>= f = none
some (a, rest) >>= f = f a rest

-- `char::to_digit(radix)`, for the radixes 10 and 16.
to_digit : ℕ → ℕ → Option ℕ
to_digit radix c =
    let value =
      if is_ascii_digit c
      then c - b'0'
      else if leb b'a' c && leb c b'f'
      then c - b'a' + 10
      else if leb b'A' c && leb c b'F'
      then c - b'A' + 10
      else 16 in
    if ltb value radix then some value else none

-- The digits of `read_number`: their value and their count, or nothing after a digit too many or
-- a value past `limit`.
read_digits : ℕ → ℕ → ℕ → ℕ → ℕ → Text → Option ((ℕ × ℕ) × Text)
unfolding to_digit
read_digits radix max_digits limit value count [] = some ((value, count), [])
read_digits radix max_digits limit value count (c ∷ s) = elim (to_digit radix c) [
  | none ↦ some ((value, count), c ∷ s)
  | some d ↦
      let value' = value * radix + d in
      let rest = read_digits radix max_digits limit value' (suc count) s in
      if leb limit value' || leb max_digits count then none else rest
]

peeks_zero : Text → Bool
peeks_zero [] = false
peeks_zero (c ∷ s) = nat_beq c b'0'

read_number : ℕ → ℕ → ℕ → Bool → Reader ℕ
unfolding read_digits peeks_zero
read_number radix max_digits limit allow_zero_prefix s =
    read_digits radix max_digits limit 0 0 s >>= λ (value, count) rest.
    if nat_beq count 0 || (not allow_zero_prefix && peeks_zero s && ltb 1 count)
    then none
    else some (value, rest)

read_given_char : ℕ → Reader (Unit {0})
read_given_char c [] = none
read_given_char c (d ∷ s) = if nat_beq d c then some (tt, s) else none

-- `read_separator`: the separator stands before every group but the first.
read_separator : {A : Type 0} → ℕ → ℕ → Reader A → Reader A
unfolding read_given_char
read_separator separator index inner s =
    if nat_beq index 0 then inner s else read_given_char separator s >>= λ _ rest. inner rest

read_octet : ℕ → Reader ℕ
unfolding read_separator read_number
read_octet index = read_separator b'.' index (read_number 10 3 256 false)

read_ipv4 : Reader (List ℕ)
unfolding read_octet
read_ipv4 s = read_octet 0 s >>= λ a s₁. read_octet 1 s₁ >>= λ b s₂.
    read_octet 2 s₂ >>= λ c s₃. read_octet 3 s₃ >>= λ d s₄. some (a ∷ b ∷ c ∷ d ∷ [], s₄)

-- An address: the four octets, or the eight groups.
pub data IpAddr : Type 0 where
  v4 v6 : List ℕ → IpAddr

-- The two groups that four octets fill.
groups_of_octets : List ℕ → List ℕ
groups_of_octets (a ∷ b ∷ c ∷ d ∷ []) = (a * 256 + b) ∷ (c * 256 + d) ∷ []
groups_of_octets _ = []

-- `read_groups`, with `left` groups still to fill: the groups filled, whether the last two are an IPv4
-- address, and the rest of the text.
read_groups : ℕ → ℕ → Text → (List ℕ × Bool) × Text
unfolding read_ipv4 groups_of_octets
read_groups zero index s = (([], false), s)
read_groups (suc left) index s =
    let plain : (List ℕ × Bool) × Text =
      elim (read_separator b':' index (read_number 16 4 65536 true) s) [
        | none ↦ (([], false), s)
        | some (group, rest) ↦
            let ((groups, ipv4), rest') = read_groups left (suc index) rest in
            ((group ∷ groups, ipv4), rest')
      ] in
    if ltb 0 left
    then elim (read_separator b':' index read_ipv4 s) [
      | none ↦ plain
      | some (octets, rest) ↦ ((groups_of_octets octets, true), rest)
    ]
    else plain

zeros : ℕ → List ℕ
zeros zero = []
zeros (suc n) = 0 ∷ zeros n

read_ipv6 : Reader (List ℕ)
unfolding read_groups zeros
read_ipv6 s =
    let ((head, head_ipv4), rest) = read_groups 8 0 s in
    if nat_beq (length head) 8
    then some (head, rest)
    else if head_ipv4
    then none
    else read_given_char b':' rest >>= λ _ s₁. read_given_char b':' s₁ >>= λ _ s₂.
        let ((tail, _), rest') = read_groups (7 - length head) 0 s₂ in
        some (head ++ zeros (8 - length head - length tail) ++ tail, rest')

abbrev whole : {A : Type 0} → Option (A × Text) → Option A
whole none = none
whole (some (a, rest)) = if is_empty rest then some a else none

-- `parse::<IpAddr>()`. `read_atomically`: nothing is consumed on failure, so the second reader starts
-- afresh; the whole text must be read.
unfoldable pub parse_ip : Text → Option IpAddr
unfolding read_ipv6
parse_ip s = elim (read_ipv4 s) [
  | some (octets, rest) ↦ whole (some (v4 octets, rest))
  | none ↦ elim (whole (read_ipv6 s)) [ none ↦ none | some groups ↦ some (v6 groups) ]
]

unfoldable pub is_ip_address : Text → Bool
unfolding parse_ip
is_ip_address s = elim (parse_ip s) [ none ↦ false | some _ ↦ true ]

unfoldable pub is_unspecified : IpAddr → Bool
is_unspecified (v4 octets) = all (nat_beq 0) octets
is_unspecified (v6 groups) = all (nat_beq 0) groups

-- 224.0.0.0/4 and ff00::/8
unfoldable pub is_multicast : IpAddr → Bool
is_multicast (v4 []) = false
is_multicast (v4 (octet ∷ _)) = leb 224 octet && leb octet 239
is_multicast (v6 []) = false
is_multicast (v6 (group ∷ _)) = leb 0xFF00 group

-- `ip == IpAddr::V4(Ipv4Addr::BROADCAST)`
unfoldable pub is_broadcast : IpAddr → Bool
is_broadcast (v4 octets) = all (nat_beq 255) octets
is_broadcast (v6 _) = false

ipv4_accepted : is_ip_address (codes "127.0.0.1") ≡ true
unfolding is_ip_address
ipv4_accepted = refl

ipv4_leading_zero : is_ip_address (codes "127.0.0.01") ≡ false
unfolding is_ip_address
ipv4_leading_zero = refl

ipv6_accepted : is_ip_address (codes "fe80::1:10.0.0.1") ≡ true
unfolding is_ip_address
ipv6_accepted = refl

ipv6_full : is_ip_address (codes "1:2:3:4:5:6:7:8") ≡ true
unfolding is_ip_address
ipv6_full = refl

host_rejected : is_ip_address (codes "api.example.com") ≡ false
unfolding is_ip_address
host_rejected = refl

ipv6_value :
    parse_ip (codes "fe80::1:10.0.0.1") ≡ some (v6 (0xFE80 ∷ 0 ∷ 0 ∷ 0 ∷ 0 ∷ 1 ∷ 0xA00 ∷ 1 ∷ []))
unfolding parse_ip
ipv6_value = refl
