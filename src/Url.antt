-- ===== src/Url.antt =====
-- NetUrl of include/utils/net_url.h. Characters are their codes. `params` is an unordered map: it is
-- an association list here, in the order in which the map is traversed.
pub mod Words
pub mod Access
pub mod Roundtrip
use snet.Prelude.{
  chars, ℕ, zero, suc, ◌+◌, ◌-◌, ◌%◌, ◌^◌, ◌≡◌, ℤ, pos, negsuc, List, [], ◌∷◌, ◌++◌, Option, none,
  some, Bool, true, false, not, ◌&&◌, ◌||◌, length, take, drop, ltb, ◌==◌, bytes_eq, if◌then◌else◌,
  lookup, insert, bytes_key,
}

abbrev pub Params : Type 0
Params = List (List ℕ × List ℕ)

pub record NetUrl : Type 0 where
  pub protocol : List ℕ
  pub host : List ℕ
  pub port : ℕ
  pub params : Params

-- `std::stoi`, which throws on some strings, and `std::to_string`.
pub record StdInt : Type 0 where
  pub stoi : List ℕ → Option ℤ
  pub to_string : ℕ → List ℕ

abbrev pub colon : ℕ
colon = 58

abbrev pub slash : ℕ
slash = 47

abbrev pub question : ℕ
question = 63

abbrev pub equals : ℕ
equals = 61

abbrev pub ampersand : ℕ
ampersand = 38

-- "://"
abbrev pub separator : List ℕ
separator = colon ∷ slash ∷ slash ∷ []

-- (uint16_t)
abbrev pub u16 : ℤ → ℕ
u16 (pos n) = n % 2 ^ 16
u16 (negsuc n) = 2 ^ 16 - 1 - n % 2 ^ 16

abbrev pub starts_with : List ℕ → List ℕ → Bool
starts_with [] s = true
starts_with (x ∷ pattern) [] = false
starts_with (x ∷ pattern) (y ∷ s) = (x == y) && starts_with pattern s

-- `s.find(pattern)`, for a pattern that is not empty; `none` is npos.
abbrev pub find : List ℕ → List ℕ → Option ℕ
find pattern [] = none
find pattern (x ∷ s) =
    let rest = find pattern s in
    if starts_with pattern (x ∷ s)
    then some 0
    else elim rest [ none ↦ none | some n ↦ some (suc n) ]

-- `reset`
unfoldable pub reset : NetUrl → NetUrl
reset url = record { protocol = []; host = []; port = 0; params = [] }

-- The loop of `parse` over the characters after '?', with what follows it.
unfoldable pub parse_params : List ℕ → Bool → List ℕ → List ℕ → Params → Params
parse_params [] is_key key value params =
    if bytes_eq key [] then params else insert key value params
parse_params (c ∷ s) is_key key value params =
    let flipped = parse_params s (not is_key) key value params in
    let stored = parse_params s (not is_key) [] [] (insert key value params) in
    let in_key = parse_params s is_key (key ++ (c ∷ [])) value params in
    let in_value = parse_params s is_key key (value ++ (c ∷ [])) params in
    if c == equals
    then flipped
    else (if c == ampersand then stored else (if is_key then in_key else in_value))

-- Where the '?' stands, or the end of the string.
abbrev pub query_pos : List ℕ → ℕ
query_pos rest = elim (find (question ∷ []) rest) [ none ↦ length rest | some n ↦ n ]

module _ (std : StdInt) where
  -- The host and the port, of what stands between "://" and '?'; `none` means that `stoi` threw.
  unfoldable pub parse_host : List ℕ → Option (List ℕ × ℕ)
  parse_host host_info = elim (find (colon ∷ []) host_info) [
    | none ↦ some (host_info, 0)
    | some c_pos ↦
        let p = drop (c_pos + 1) host_info in
        if bytes_eq p []
        then some (take c_pos host_info, 0)
        else elim (std.stoi p) [ none ↦ none | some n ↦ some (take c_pos host_info, u16 n) ]
  ]

  -- `parse` behind "://".
  unfoldable pub parse_rest : List ℕ → List ℕ → Option (Bool × NetUrl)
  unfolding parse_host parse_params
  parse_rest protocol rest =
      let p_pos = query_pos rest in
      elim (parse_host (take p_pos rest)) [
        | none ↦ none
        | some (host, port) ↦ some (
          true,
          record {
            protocol = protocol;
            host = host;
            port = port;
            params = parse_params (drop (p_pos + 1) rest) true [] [] [];
          },
        )
      ]

  -- `parse`: its result and the URL after; `none` means that an exception is thrown.
  unfoldable pub parse : List ℕ → NetUrl → Option (Bool × NetUrl)
  unfolding parse_rest reset
  parse channel url = elim (find separator channel) [
    | none ↦ some (false, reset url)
    | some at ↦ parse_rest (take at channel) (drop (at + 3) channel)
  ]

  -- The parameters as `encode` writes them, each with a '&' behind it.
  abbrev pub encode_params : Params → List ℕ
  encode_params [] = []
  encode_params ((key, value) ∷ params) =
      key ++ (equals ∷ (value ++ (ampersand ∷ encode_params params)))

  abbrev pub encode_port : ℕ → List ℕ
  encode_port port = if ltb 0 port then colon ∷ std.to_string port else []

  abbrev pub encode_query : Params → List ℕ
  encode_query [] = []
  encode_query (param ∷ params) = question ∷ encode_params (param ∷ params)

  -- `encode`
  unfoldable pub encode : NetUrl → List ℕ
  encode url =
      url.protocol ++ (separator ++ ((url.host ++ encode_port url.port) ++ encode_query url.params))

-- `has`, `set` and `get` with a default.
unfoldable pub has : List ℕ → NetUrl → Bool
has key url = elim (lookup key url.params) [ none ↦ false | some _ ↦ true ]

unfoldable pub set_param : List ℕ → List ℕ → NetUrl → NetUrl
set_param key val url = record url { params = insert key val url.params }

unfoldable pub get : List ℕ → List ℕ → NetUrl → List ℕ
get key dft url = elim (lookup key url.params) [ none ↦ dft | some val ↦ val ]

-- `TypeCaster<bool>`: the lower-case copy that it makes is not read.
unfoldable pub cast_bool : List ℕ → Bool
cast_bool val =
    not (bytes_eq val (chars "false") || (bytes_eq val (chars "0") || bytes_eq val (chars "no")))
