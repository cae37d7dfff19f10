-- ===== src/Http/Message.antt =====
-- include/http/http_message.h: the names of methods, versions, MIME types and status codes.
use snet.Prelude.{ℕ, List, [], ◌∷◌, ◌++◌, ◌==◌, bytes_eq, if◌then◌else◌, chars}

pub data HttpMethod : Type 0 where
  http_get http_head http_post http_put http_delete http_trace http_options http_connect
        http_patch :
      HttpMethod

pub data HttpVersion : Type 0 where
  http_1_0 http_1_1 http_2_0 : HttpVersion

abbrev pub http_version_1_0 : List ℕ
http_version_1_0 = chars "HTTP/1.0"

abbrev pub http_version_1_1 : List ℕ
http_version_1_1 = chars "HTTP/1.1"

-- As it is written.
abbrev pub http_version_2_0 : List ℕ
http_version_2_0 = chars "HTTP/1.0"

-- `http_method_string`; the case of PATCH is as it is written.
unfoldable pub http_method_string : HttpMethod → List ℕ
http_method_string http_get = chars "GET"
http_method_string http_post = chars "POST"
http_method_string http_head = chars "HEAD"
http_method_string http_put = chars "PUT"
http_method_string http_delete = chars "DELETE"
http_method_string http_trace = chars "TRACE"
http_method_string http_options = chars "OPTIONS"
http_method_string http_connect = chars "CONNECT"
http_method_string http_patch = chars "TRACE"

-- HttpQueryParameter's `add`.
unfoldable pub add_parameter : List ℕ → List ℕ → List ℕ → List ℕ
add_parameter k v [] = k ++ (chars "=" ++ v)
add_parameter k v (c ∷ parameters) = (c ∷ parameters) ++ (chars "&" ++ (k ++ (chars "=" ++ v)))

abbrev pub mappings : List (List ℕ × List ℕ)
mappings =
    (chars "gif", chars "image/gif")
    ∷ (chars "htm", chars "text/html")
    ∷ (chars "html", chars "text/html")
    ∷ (chars "jpg", chars "image/jpeg")
    ∷ (chars "png", chars "image/png")
    ∷ (chars "txt", chars "text/html")
    ∷ []

abbrev pub find_mapping : List ℕ → List (List ℕ × List ℕ) → List ℕ
find_mapping ext [] = chars "text/plain"
find_mapping ext ((extension, mime_type) ∷ rest) =
    if bytes_eq extension ext then mime_type else find_mapping ext rest

unfoldable pub to_mime : List ℕ → List ℕ
to_mime ext = find_mapping ext mappings

abbrev pub status_lines : List (ℕ × List ℕ)
status_lines =
    (101, chars "HTTP/1.1 101  Web Socket Protocol Handshake")
    ∷ (200, chars "HTTP/1.0 200 OK")
    ∷ (201, chars "HTTP/1.0 201 Created")
    ∷ (202, chars "HTTP/1.0 202 Accepted")
    ∷ (204, chars "HTTP/1.0 204 No Content")
    ∷ (300, chars "HTTP/1.0 300 Multiple Choices")
    ∷ (301, chars "HTTP/1.0 301 Moved Permanently")
    ∷ (302, chars "HTTP/1.0 302 Moved Temporarily")
    ∷ (304, chars "HTTP/1.0 304 Not Modified")
    ∷ (400, chars "HTTP/1.0 400 Bad Request")
    ∷ (401, chars "HTTP/1.0 401 Unauthorized")
    ∷ (403, chars "HTTP/1.0 403 Forbidden")
    ∷ (404, chars "HTTP/1.0 404 Not Found")
    ∷ (500, chars "HTTP/1.0 500 Internal Server Error")
    ∷ (501, chars "HTTP/1.0 501 Not Implemented")
    ∷ (502, chars "HTTP/1.0 502 Bad Gateway")
    ∷ (503, chars "HTTP/1.0 503 Service Unavailable")
    ∷ []

abbrev pub find_status : ℕ → List (ℕ × List ℕ) → List ℕ
find_status code [] = chars "HTTP/1.0 400 Bad Request"
find_status code ((c, line) ∷ rest) = if c == code then line else find_status code rest

-- `status_strings::to_string`
unfoldable pub to_string : ℕ → List ℕ
to_string code = find_status code status_lines
