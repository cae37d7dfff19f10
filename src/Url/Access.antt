-- ===== src/Url/Access.antt =====
-- The constructors of NetUrl of include/utils/net_url.h and what reads a URL: `get` of a type, `dump`.
use snet.Prelude.{
  ℕ, ◌≡◌, refl, ap, ◌∙◌, List, [], ◌∷◌, ◌++◌, Option, none, some, Bool, true, false, bytes_key,
  bytes_eq, lookup, lookup-insert, chars, if◌then◌else◌,
}
use snet.Url.{NetUrl, Params, StdInt, parse, set_param}

-- The fields before a constructor's body.
abbrev pub blank : NetUrl
blank = record { protocol = []; host = []; port = 0; params = [] }

-- `NetUrl(url)`: what `parse` returns is not looked at; `none` means that an exception is thrown.
unfoldable pub from_text : StdInt → List ℕ → Option NetUrl
from_text std url = elim (parse std url blank) [ none ↦ none | some (ok, u) ↦ some u ]

-- `NetUrl(proto, host, port)`
unfoldable pub from_parts : List ℕ → List ℕ → ℕ → NetUrl
from_parts proto host port = record blank { protocol = proto; host = host; port = port }

-- `TypeCaster<T>` of a value, for what `operator>>` reads of it, if it does not fail, with the
-- characters that it leaves. Where it fails or leaves some, the result is `T()`.
unfoldable pub cast {ℓ} : {T : Type ℓ} → (List ℕ → Option (T × List ℕ)) → T → List ℕ → T
cast read zero_ val = elim (read val) [
  | none ↦ zero_
  | some (rst, []) ↦ rst
  | some (rst, c ∷ more) ↦ zero_
]

abbrev or_else {ℓ} : {T : Type ℓ} → (List ℕ → T) → T → Option (List ℕ) → T
or_else caster dft none = dft
or_else caster dft (some val) = caster val

-- `get<T>`, for a caster.
unfoldable pub get_as {ℓ} : {T : Type ℓ} → (List ℕ → T) → List ℕ → T → NetUrl → T
get_as caster key dft url = or_else caster dft (lookup key url.params)

-- `TypeCaster<std::string>`
unfoldable pub cast_string : List ℕ → List ℕ
cast_string val = val

module _ (std : StdInt) where
  -- The lines of the parameters in `dump`.
  unfoldable pub dump_params : Params → List ℕ
  dump_params [] = []
  dump_params ((key, value) ∷ params) = key ++ (chars " : " ++ (value ++ (10 ∷ dump_params params)))

  -- `dump`
  unfoldable pub dump : NetUrl → List ℕ
  unfolding dump_params
  dump url =
      chars "protocol : "
      ++ (url.protocol
          ++ (10
              ∷ (chars "host : "
                  ++ (url.host
                      ++ (10
                          ∷ (chars "port : "
                              ++ (std.to_string url.port ++ (10 ∷ dump_params url.params))))))))

or_else-if {ℓ} :
    {T : Type ℓ} (caster : List ℕ → T) (dft : T) (b : Bool) (val : List ℕ) (o : Option (List ℕ))
    → or_else caster dft (if b then some val else o)
      ≡ (if b then caster val else or_else caster dft o)
or_else-if caster dft true val o = refl
or_else-if caster dft false val o = refl

-- After `set`, `get` of that key casts the value that was set, and of any other key it gives what it
-- gave before, with every caster.
pub get_as-set {ℓ} :
    {T : Type ℓ} (caster : List ℕ → T) (key i val : List ℕ) (dft : T) (url : NetUrl)
    → get_as caster i dft (set_param key val url)
      ≡ (if bytes_eq key i then caster val else get_as caster i dft url)
unfolding get_as set_param
get_as-set caster key i val dft url =
    ap (or_else caster dft) (lookup-insert key i val url.params)
    ∙ or_else-if caster dft (bytes_eq key i) val (lookup i url.params)
