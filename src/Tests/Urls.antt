-- ===== src/Tests/Urls.antt =====
-- include/utils/net_url.h on `tcp://h:8?a=b&`, with numbers written as a row of strokes.
use snet.Prelude.{
  chars, ℕ, zero, suc, ◌≡◌, ◌≢◌, refl, ap, ℤ, pos, List, [], ◌∷◌, Option, none, some, true, length,
  arith,
}
use snet.Url.{cast_bool, NetUrl, StdInt, parse, encode, question}
use snet.Url.Words.{Lacks, IsWord, IsParams}
use snet.Url.Roundtrip.{IsDecimal, IsUrl, parse-encode}

-- n + 1 strokes
abbrev pub strokes : ℕ → List ℕ
strokes zero = 49 ∷ []
strokes (suc n) = 49 ∷ strokes n

abbrev pub count : List ℕ → Option ℤ
count [] = none
count (x ∷ s) = some (pos (length s))

abbrev pub std : StdInt
std = record { stoi = count; to_string = strokes }

count-strokes : (n : ℕ) → count (strokes n) ≡ some (pos n)
count-strokes zero = refl
count-strokes (suc n) = ap (λ k. some (pos k)) (length-strokes n)
  where
    length-strokes : (n : ℕ) → length (strokes n) ≡ suc n
    length-strokes zero = refl
    length-strokes (suc n) = ap suc (length-strokes n)

strokes-not_empty : (n : ℕ) → strokes n ≢ []
strokes-not_empty zero = λ e. cc
strokes-not_empty (suc n) = λ e. cc

strokes-digits : (n : ℕ) → Lacks question (strokes n)
unfolding Lacks
strokes-digits zero = (ground arith, _)
strokes-digits (suc n) = (ground arith, strokes-digits n)

pub std-IsDecimal : IsDecimal std
std-IsDecimal = record {
  reads = λ n small. count-strokes n;
  not_empty = strokes-not_empty;
  digits = strokes-digits;
}

abbrev pub url : NetUrl
url = record {
  protocol = 116 ∷ 99 ∷ 112 ∷ [];
  host = 104 ∷ [];
  port = 8;
  params = (97 ∷ [], 98 ∷ []) ∷ [];
}

abbrev other : NetUrl
other = record { protocol = 119 ∷ []; host = []; port = 1; params = [] }

pub url-IsUrl : IsUrl url
unfolding Lacks IsParams IsWord
url-IsUrl = ground arith

parse-encode_example : parse std (encode std url) other ≡ some (true, url)
parse-encode_example = parse-encode std-IsDecimal url other url-IsUrl

-- "a://h?k&x=1&": the parameter `k` has no '=', and the next one is read the wrong way round.
abbrev flagged : List ℕ
flagged = 97 ∷ 58 ∷ 47 ∷ 47 ∷ 104 ∷ 63 ∷ 107 ∷ 38 ∷ 120 ∷ 61 ∷ 49 ∷ 38 ∷ []

parse_flag :
    parse std flagged other
    ≡ some (
      true,
      record {
        protocol = 97 ∷ [];
        host = 104 ∷ [];
        port = 0;
        params = (107 ∷ [], []) ∷ (49 ∷ [], 120 ∷ []) ∷ [];
      },
    )
unfolding parse
parse_flag = refl

-- Upper case is not recognised.
cast_upper : cast_bool (chars "FALSE") ≡ true
unfolding cast_bool
cast_upper = refl
