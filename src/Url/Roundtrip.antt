-- ===== src/Url/Roundtrip.antt =====
-- `parse` reads back what `encode` writes.
use snet.Prelude.{
  ℕ, zero, suc, ◌+◌, ◌%◌, ◌^◌, ◌<◌, ◌≡◌, ◌≢◌, pos, refl, ap, ap₂, ◌∙◌, List, [], ◌∷◌, ◌++◌, none,
  some, true, false, inl, inr, length, take, drop, drop_all, append-nil, bytes_eq, bytes_eq→eq,
  bytes_key, arith, Bool-cases,
}
use snet.Url.{
  Params, NetUrl, StdInt, colon, slash, question, separator, find, query_pos, parse_params,
  parse_host, parse_rest, parse, encode_params, encode_port, encode_query, encode,
}
use snet.Url.Words.{
  Lacks, Lacks-append, find-Lacks, find-none, take-front, drop-front, IsParams, parse_params-encode,
}

-- What the standard says of numbers below 2 ^ 16: `to_string` writes digits and `stoi` reads them.
pub record IsDecimal (std : StdInt) : Type 0 where
  pub reads : (n : ℕ) → n < 2 ^ 16 → std.stoi (std.to_string n) ≡ some (pos n)
  pub not_empty : (n : ℕ) → std.to_string n ≢ []
  pub digits : (n : ℕ) → Lacks question (std.to_string n)

-- A URL that can be written: no ':' in the protocol, neither ':' nor '?' in the host.
pub record IsUrl (url : NetUrl) : Type 0 where
  pub protocol_ok : Lacks colon url.protocol
  pub host_colon : Lacks colon url.host
  pub host_question : Lacks question url.host
  pub port_word : url.port < 2 ^ 16
  pub params_ok : IsParams [] url.params

module _ {std : StdInt} (d : IsDecimal std) where
  host_and_port :
      (host digits : List ℕ) (n : ℕ)
      → Lacks colon host
      → digits ≢ []
      → std.stoi digits ≡ some (pos n)
      → parse_host std (host ++ (colon ∷ digits)) ≡ some (host, n % 2 ^ 16)
  unfolding parse_host
  host_and_port host digits n lacks some_digit read =
      let at : find (colon ∷ []) (host ++ (colon ∷ digits)) ≡ some (length host) =
        find-Lacks colon [] host (colon ∷ digits) lacks refl in
      let p : drop (length host + 1) (host ++ (colon ∷ digits)) ≡ digits =
        drop-front 1 host (colon ∷ digits) in
      let more : bytes_eq digits [] ≡ false = elim (Bool-cases (bytes_eq digits [])) [
        | inl e ↦ absurd (some_digit (bytes_eq→eq digits [] e))
        | inr e ↦ e
      ] in
      rw (parse_host, at, p, more, read)
        (ap (λ h. some (h, n % 2 ^ 16)) (take-front host (colon ∷ digits)))

  parse_host-encode :
      (host : List ℕ) (port : ℕ)
      → Lacks colon host
      → port < 2 ^ 16
      → parse_host std (host ++ encode_port std port) ≡ some (host, port)
  unfolding parse_host
  parse_host-encode host zero lacks small =
      let none_found : find (colon ∷ []) (host ++ []) ≡ none =
        find-none colon (host ++ []) (Lacks-append colon host [] lacks (unfold Lacks in _)) in
      rw (parse_host, none_found) (ap (λ h. some (h, 0)) (append-nil host))
  parse_host-encode host (suc n) lacks small =
      let digits = std.to_string (suc n) in
      let opened : encode_port std (suc n) ≡ colon ∷ digits = ground arith in
      let word : suc n % 2 ^ 16 ≡ suc n = omega arith in
      ap (λ t. parse_host std (host ++ t)) opened
      ∙ host_and_port host digits (suc n) lacks (d.not_empty (suc n)) (d.reads (suc n) small)
      ∙ ap (λ q. some (host, q)) word

  separated :
      (channel : List ℕ) (old : NetUrl) (n : ℕ)
      → find separator channel ≡ some n
      → parse std channel old ≡ parse_rest std (take n channel) (drop (n + 3) channel)
  unfolding parse
  separated channel old n at = rw (parse, at) refl

  rest-parsed :
      (protocol host rest : List ℕ) (port : ℕ) (params : Params)
      → parse_host std (take (query_pos rest) rest) ≡ some (host, port)
      → parse_params (drop (query_pos rest + 1) rest) true [] [] [] ≡ params
      → parse_rest std protocol rest
        ≡ some (true, record { protocol = protocol; host = host; port = port; params = params })
  unfolding parse_rest
  rest-parsed protocol host rest port params a b = rw (parse_rest, a, b) refl

  query-question :
      (front : List ℕ) (params : Params)
      → Lacks question front
      → let rest = front ++ encode_query std params in
        (query_pos rest ≡ length front)
        × (drop (query_pos rest + 1) rest ≡ encode_params std params)
  query-question front [] lacks =
      let whole = append-nil front in
      let at : query_pos (front ++ []) ≡ length front =
        ap query_pos whole ∙ rw (query_pos, find-none question front lacks) refl in
      (at, ap₂ (λ n s. drop (n + 1) s) at whole ∙ drop_all (length front + 1) front (omega arith))
  query-question front (param ∷ params) lacks =
      let query = encode_query std (param ∷ params) in
      rw (query_pos, find-Lacks question [] front query lacks refl) (refl, drop-front 1 front query)

  port-question : (port : ℕ) → Lacks question (encode_port std port)
  unfolding Lacks
  port-question zero = unfold Lacks in _
  port-question (suc n) =
      let opened : encode_port std (suc n) ≡ colon ∷ std.to_string (suc n) = ground arith in
      rw opened (unfold Lacks in (ground arith, d.digits (suc n)))

  parse_rest-encode :
      (url : NetUrl)
      → IsUrl url
      → parse_rest std url.protocol
          ((url.host ++ encode_port std url.port) ++ encode_query std url.params)
        ≡ some (true, url)
  parse_rest-encode url v =
      let front = url.host ++ encode_port std url.port in
      let rest = front ++ encode_query std url.params in
      let lacks =
        Lacks-append question url.host (encode_port std url.port) v.host_question
          (port-question url.port) in
      let (at, query) = query-question front url.params lacks in
      let info : take (query_pos rest) rest ≡ front =
        ap (λ k. take k rest) at ∙ take-front front (encode_query std url.params) in
      rest-parsed url.protocol url.host rest url.port url.params
        (ap (parse_host std) info ∙ parse_host-encode url.host url.port v.host_colon v.port_word)
        (ap (λ s. parse_params s true [] [] []) query
          ∙ parse_params-encode std url.params [] v.params_ok)

  -- `parse` reads back what `encode` wrote, whatever the URL was before, if `stoi` reads what
  -- `to_string` writes. The protocol has no ':', the host no ':' or '?', the port is a word, keys
  -- and values have no '=' or '&', and no key stands twice.
  pub parse-encode :
      (url old : NetUrl) → IsUrl url → parse std (encode std url) old ≡ some (true, url)
  unfolding encode
  parse-encode url old v =
      let rest = (url.host ++ encode_port std url.port) ++ encode_query std url.params in
      let at : find separator (url.protocol ++ (separator ++ rest)) ≡ some (length url.protocol) =
        find-Lacks colon (slash ∷ slash ∷ []) url.protocol (separator ++ rest) v.protocol_ok refl in
      separated (url.protocol ++ (separator ++ rest)) old (length url.protocol) at
      ∙ ap₂ (parse_rest std) (take-front url.protocol (separator ++ rest))
          (drop-front 3 url.protocol (separator ++ rest))
      ∙ parse_rest-encode url v
