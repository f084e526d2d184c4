-- ===== src/Util/RemoteAddress.antt =====
-- platform/util/netutil/parseip.go. A remote address is walked by characters; every byte that the
-- source looks for is ASCII, so that it is found at the same place.
use Prim.Native.Char.{Char, code}
use Prim.Native.String.{[] as nil, ◌∷◌ as cons}
use homeworld.Common.{
  ℕ, ◌+◌, ◌-◌, ◌*◌, ◌^◌, String, Bool, true, false, ◌&&◌, Option, none, some, ltb, leb, eqb,
  if◌then◌else◌, Error, message, Result, ok, err, ◌>>◌,
}
use homeworld.Authority.Crypto.{Ip, Net}

abbrev is_char : ℕ → Char → Bool
is_char n c = eqb (code c) n

-- `strings.Contains` of one character.
unfoldable pub contains : ℕ → String → Bool
contains n nil = false
contains n (cons c s) = if is_char n c then true else contains n s

abbrev extend : Char → Option (String × String) → String → Option (String × String)
extend c (some (before, after)) s = some (cons c before, after)
extend c none s = if is_char b':' c then some (nil, s) else none

-- What stands before and after the last colon: `LastIndexByte` and the two slices.
unfoldable pub split_last_colon : String → Option (String × String)
split_last_colon nil = none
split_last_colon (cons c s) = extend c (split_last_colon s) s

is_digit : Char → Bool
is_digit c = leb b'0' (code c) && leb (code c) b'9'

-- The value of decimal digits behind `acc`.
digits : ℕ → String → Option ℕ
unfolding is_digit
digits acc nil = some acc
digits acc (cons c s) =
    let rest = digits (acc * 10 + (code c - b'0')) s in if is_digit c then rest else none

abbrev fits : Option ℕ → Result (Unit {0})
fits none = err (message "strconv.ParseUint: parsing: invalid syntax")
fits (some n) =
    if ltb n (2 ^ 16) then ok tt else err (message "strconv.ParseUint: parsing: value out of range")

-- `strconv.ParseUint(s, 10, 16)`, of which only the error is used.
unfoldable pub parse_port : String → Result (Unit {0})
unfolding digits
parse_port nil = err (message "strconv.ParseUint: parsing: invalid syntax")
parse_port (cons c s) = fits (digits 0 (cons c s))

-- What stands before a final closing bracket.
unfoldable pub before_bracket : String → Option String
before_bracket nil = none
before_bracket (cons c nil) = if is_char b']' c then some nil else none
before_bracket (cons c (cons d s)) = elim (before_bracket (cons d s)) [
  | none ↦ none
  | some inner ↦ some (cons c inner)
]

-- `remote_addr[1 : index-1]`, if the host stands in brackets.
unfoldable pub bracketed : String → Option String
unfolding before_bracket
bracketed nil = none
bracketed (cons c s) = if is_char b'[' c then before_bracket s else none

module _ (net : Net) where
  parse_host : String → ℕ → Error → Result Ip
  unfolding contains
  parse_host host forbidden e = elim (net.parse_ip host) [
    | none ↦ err (message "invalid request address (invalid IP in '%s')")
    | some ip ↦ if contains forbidden host then err e else ok ip
  ]

  parse_by_form : String → Option String → Result Ip
  unfolding parse_host
  parse_by_form host (some inner) =
      parse_host inner b'.' (message "IP address was expected to be IPv6, but was IPv4")
  parse_by_form host none =
      parse_host host b':' (message "IP address was expected to be IPv4, but was IPv6")

  parse_split : Option (String × String) → Result Ip
  unfolding parse_by_form bracketed parse_port
  parse_split none = err (message "invalid request address (no colon)")
  parse_split (some (host, port)) = do parse_port port; parse_by_form host (bracketed host)

  unfoldable pub parse_remote_address : String → Result Ip
  unfolding parse_split split_last_colon
  parse_remote_address remote_addr = parse_split (split_last_colon remote_addr)
