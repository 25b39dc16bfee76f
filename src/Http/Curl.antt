-- ===== src/Http/Curl.antt =====
-- http/curl_impl.cpp: the request over libcurl. The library is a record of what its calls answer;
-- `curl_easy_setopt` is a setting that is added to those before.
use libcoda_net.Base.{
  ℕ, Bool, Option, none, some, List, [], ◌∷◌, ◌++◌, map, ◌==◌, if◌then◌else◌, Bytes, ascii, length,
  is_empty, before_first,
}
use libcoda_net.Uri.Parse.{full_path, host_with_port}
use libcoda_net.Http.{Method, method_name, options, head, get, post, put, delete, connect, trace}
use libcoda_net.Http.Client.{Client, Implementation}
use libcoda_net.Http.Request.{c_str, snprintf, header_text}

pub data Setting : Type 0 where
  url custom_request post_fields : Bytes → Setting
  write_function with_header http_get http_post http_put write_data : Setting
  post_field_size timeout : ℕ → Setting
  http_header : List Bytes → Setting

-- The outcome of a transfer, by its code, with the chunks that the write function was called with.
pub data Performed : Type 0 where
  whole partial_file : List Bytes → Performed
  not_performed : Performed

-- `sets` is whether a setting is accepted behind those that were made.
pub record Curl : Type 0 where
  pub has_handle : Bool
  pub sets : List Setting → Setting → Bool
  pub perform : List Setting → Performed

-- The path behind the host.
unfoldable pub url_path : Bytes → Bytes
url_path [] = []
url_path (c ∷ s) = if c == b'/' then c ∷ s else b'/' ∷ c ∷ s

unfoldable pub url_text : Client → Bytes → Bytes
unfolding snprintf full_path host_with_port url_path
url_text c path = snprintf (
    c_str c.uri.scheme
    ++ (ascii "://"
        ++ (c_str (host_with_port c.uri)
            ++ c_str (url_path (if is_empty path then full_path c.uri else path)))))

-- The content of a POST or PUT.
unfoldable pub content_settings : Bytes → List Setting
content_settings content =
    if is_empty content
    then []
    else post_fields (c_str content) ∷ post_field_size (length content) ∷ []

unfoldable pub method_settings : Client → Method → List Setting
unfolding content_settings
method_settings c get = http_get ∷ []
method_settings c post = http_post ∷ content_settings c.content
method_settings c put = http_put ∷ content_settings c.content
method_settings c options = custom_request (method_name options) ∷ []
method_settings c head = custom_request (method_name head) ∷ []
method_settings c delete = custom_request (method_name delete) ∷ []
method_settings c connect = custom_request (method_name connect) ∷ []
method_settings c trace = custom_request (method_name trace) ∷ []

-- The settings of a request, in their order.
unfoldable pub settings : Client → Method → Bytes → List Setting
unfolding url_text method_settings
settings c method path =
    url (url_text c path)
    ∷ write_function
    ∷ with_header
    ∷ (method_settings c method
        ++ (http_header (map header_text c.headers) ∷ timeout c.timeout ∷ write_data ∷ []))

-- The helpers `curl_set_opt`: the settings that were made, or the exception.
unfoldable pub set_all : Curl → List Setting → List Setting → Option (List Setting)
set_all curl made [] = some made
set_all curl made (s ∷ more) =
    let rest = set_all curl (made ++ (s ∷ [])) more in if curl.sets made s then rest else none

-- `curl_append_response_callback` for each chunk: the bytes are appended as a string, which ends at a
-- zero byte.
unfoldable pub append_chunks : Bytes → List Bytes → Bytes
unfolding before_first
append_chunks response [] = response
append_chunks response (chunk ∷ chunks) = append_chunks (response ++ before_first 0 chunk) chunks

unfoldable pub answer_of : Performed → Option Bytes
unfolding append_chunks
answer_of (whole chunks) = some (append_chunks [] chunks)
answer_of (partial_file chunks) = some (append_chunks [] chunks)
answer_of not_performed = none

unfoldable pub after_settings : Curl → Option (List Setting) → Option Bytes
unfolding answer_of
after_settings curl none = none
after_settings curl (some made) = answer_of (curl.perform made)

-- `curl::request`; `none` is an exception.
unfoldable pub curl_request : Curl → Client → Method → Bytes → Option Bytes
unfolding settings set_all after_settings
curl_request curl c method path =
    if curl.has_handle then after_settings curl (set_all curl [] (settings c method path)) else none

unfoldable pub with_client : Client → Option Bytes → Option (Client × Bytes)
with_client c none = none
with_client c (some response) = some (c, response)

-- As the implementation of a client.
unfoldable pub over_curl : Curl → Implementation
unfolding with_client curl_request
over_curl curl c method path = with_client c (curl_request curl c method path)
