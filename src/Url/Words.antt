-- ===== src/Url/Words.antt =====
-- Strings that `find` and the parameter loop of NetUrl in include/utils/net_url.h go over.
use snet.Prelude.{
  ℕ, suc, ◌+◌, ◌≡◌, ◌≢◌, refl, sym, ap, ◌∙◌, List, [], ◌∷◌, ◌++◌, none, some, true, false, inl, inr,
  length, take, drop, take_all, take-append, append_assoc, append-nil, ◌==◌, bytes_eq, lookup,
  insert, bytes_key, arith, Bool-cases,
}
use snet.Url.{Params, StdInt, equals, ampersand, starts_with, find, parse_params, encode_params}

-- The character does not stand in the string.
unfoldable pub Lacks : ℕ → List ℕ → Type 0
Lacks c [] = Unit
Lacks c (x ∷ s) = (x ≢ c) × Lacks c s

pub Lacks-append : (c : ℕ) (s t : List ℕ) → Lacks c s → Lacks c t → Lacks c (s ++ t)
unfolding Lacks
Lacks-append c [] t a b = b
Lacks-append c (x ∷ s) t a b = (a.0, Lacks-append c s t a.1 b)

-- The first `c` is behind a string that lacks it.
pub find-Lacks :
    (c : ℕ) (pattern s t : List ℕ)
    → Lacks c s
    → starts_with (c ∷ pattern) t ≡ true
    → find (c ∷ pattern) (s ++ t) ≡ some (length s)
unfolding Lacks
find-Lacks c pattern [] [] a b = cc
find-Lacks c pattern [] (y ∷ t) a b = rw b refl
find-Lacks c pattern (x ∷ s) t a b =
    let ne : (c == x) ≡ false = ground (arith, a.0) in rw (ne, find-Lacks c pattern s t a.1 b) refl

pub find-none : (c : ℕ) (s : List ℕ) → Lacks c s → find (c ∷ []) s ≡ none
unfolding Lacks
find-none c [] a = refl
find-none c (x ∷ s) a =
    let ne : (c == x) ≡ false = ground (arith, a.0) in rw (ne, find-none c s a.1) refl

pub take-front : (s t : List ℕ) → take (length s) (s ++ t) ≡ s
take-front s t = take-append (length s) s t (omega arith) ∙ take_all (length s) s (omega arith)

pub drop-front : (n : ℕ) (s t : List ℕ) → drop (length s + n) (s ++ t) ≡ drop n t
drop-front n [] t = ap (λ k. drop k t) (omega arith)
drop-front n (x ∷ s) t =
    let e : suc (length s) + n ≡ suc (length s + n) = omega arith in rw e (drop-front n s t)

-- What is behind a key and a value.
unfoldable pub IsWord : List ℕ → Type 0
IsWord s = Lacks equals s × Lacks ampersand s

key-run :
    (k rest key value : List ℕ) (params : Params)
    → IsWord k
    → parse_params (k ++ rest) true key value params
      ≡ parse_params rest true (key ++ k) value params
unfolding IsWord Lacks parse_params
key-run [] rest key value params w =
    ap (λ t. parse_params rest true t value params) (sym (append-nil key))
key-run (c ∷ k) rest key value params w =
    let e : (c == equals) ≡ false = ground (arith, w.0.0) in
    let a : (c == ampersand) ≡ false = ground (arith, w.1.0) in
    rw (e, a)
      (key-run k rest (key ++ (c ∷ [])) value params (w.0.1, w.1.1)
        ∙ ap (λ t. parse_params rest true t value params) (append_assoc key (c ∷ []) k))

value-run :
    (v rest key value : List ℕ) (params : Params)
    → IsWord v
    → parse_params (v ++ rest) false key value params
      ≡ parse_params rest false key (value ++ v) params
unfolding IsWord Lacks parse_params
value-run [] rest key value params w =
    ap (λ t. parse_params rest false key t params) (sym (append-nil value))
value-run (c ∷ v) rest key value params w =
    let e : (c == equals) ≡ false = ground (arith, w.0.0) in
    let a : (c == ampersand) ≡ false = ground (arith, w.1.0) in
    rw (e, a)
      (value-run v rest key (value ++ (c ∷ [])) params (w.0.1, w.1.1)
        ∙ ap (λ t. parse_params rest false key t params) (append_assoc value (c ∷ []) v))

insert-new :
    (k v : List ℕ) (params : Params)
    → lookup k params ≡ none
    → insert k v params ≡ params ++ ((k, v) ∷ [])
insert-new k v [] e = refl
insert-new k v ((j, w) ∷ params) e = elim (Bool-cases (bytes_eq j k)) [
  | inl same ↦ absurd (ground arith)
  | inr other ↦ rw other (ap (λ t. (j, w) ∷ t) (insert-new k v params (ground arith)))
]

-- Keys and values without '=' and '&', and no key twice.
unfoldable pub IsParams : Params → Params → Type 0
IsParams seen [] = Unit
IsParams seen ((key, value) ∷ params) =
    IsWord key
    × IsWord value
    × (lookup key seen ≡ none)
    × IsParams (seen ++ ((key, value) ∷ [])) params

pub parse_params-encode :
    (std : StdInt) (params seen : Params)
    → IsParams seen params
    → parse_params (encode_params std params) true [] [] seen ≡ seen ++ params
unfolding IsParams parse_params
parse_params-encode std [] seen v = sym (append-nil seen)
parse_params-encode std ((key, value) ∷ params) seen v =
    let rest = encode_params std params in
    key-run key (equals ∷ (value ++ (ampersand ∷ rest))) [] [] seen v.0
    ∙ value-run value (ampersand ∷ rest) key [] seen v.1
    ∙ ap (parse_params rest true [] []) (insert-new key value seen v.2)
    ∙ parse_params-encode std params (seen ++ ((key, value) ∷ [])) v.3
    ∙ append_assoc seen ((key, value) ∷ []) params
