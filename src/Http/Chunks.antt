-- ===== src/Http/Chunks.antt =====
-- What a request over libcurl returns, by the chunks that the library delivers.
use libcoda_net.Base.{
  true, none, some, List, [], ◌∷◌, ◌++◌, append-nil, append_assoc, if◌then◌else◌, Bytes,
  before_first-miss, All, Without, ◌≡◌, ◌∙◌, refl, ap, sym,
}
use libcoda_net.Http.{Method}
use libcoda_net.Http.Response
use libcoda_net.Http.Response.{Response, parsed}
use libcoda_net.Http.Client.{Client, requested, request}
use libcoda_net.Http.Curl.{
  Setting, whole, Curl, settings, set_all, append_chunks, answer_of, after_settings, curl_request,
  with_client, over_curl,
}

abbrev pub concat : List Bytes → Bytes
concat [] = []
concat (chunk ∷ chunks) = chunk ++ concat chunks

append_chunks-concat :
    (response : Bytes) (chunks : List Bytes)
    → All (Without 0) chunks
    → append_chunks response chunks ≡ response ++ concat chunks
unfolding append_chunks
append_chunks-concat response [] h = sym (append-nil response)
append_chunks-concat response (chunk ∷ chunks) h =
    ap (λ part. append_chunks (response ++ part) chunks) (before_first-miss 0 chunk h.0)
    ∙ append_chunks-concat (response ++ chunk) chunks h.1
    ∙ append_assoc response chunk (concat chunks)

-- No setting is refused.
abbrev pub AcceptsAll : Curl → Type 0
AcceptsAll curl = (made : List Setting) (s : Setting) → curl.sets made s ≡ true

set_all-AcceptsAll :
    (curl : Curl) (made more : List Setting)
    → AcceptsAll curl
    → set_all curl made more ≡ some (made ++ more)
unfolding set_all
set_all-AcceptsAll curl made [] h = ap some (sym (append-nil made))
set_all-AcceptsAll curl made (s ∷ more) h =
    rw (h made s, set_all)
      (set_all-AcceptsAll curl (made ++ (s ∷ [])) more h
        ∙ ap some (append_assoc made (s ∷ []) more))

curl_request-concat :
    (curl : Curl) (c : Client) (method : Method) (path : Bytes) (chunks : List Bytes)
    → curl.has_handle ≡ true
    → AcceptsAll curl
    → curl.perform (settings c method path) ≡ whole chunks
    → All (Without 0) chunks
    → curl_request curl c method path ≡ some (concat chunks)
unfolding curl_request after_settings answer_of
curl_request-concat curl c method path chunks handle h e z =
    ap (λ b. if b then after_settings curl (set_all curl [] (settings c method path)) else none)
      handle
    ∙ ap (after_settings curl) (set_all-AcceptsAll curl [] (settings c method path) h)
    ∙ ap answer_of e
    ∙ ap some (append_chunks-concat [] chunks z)

-- A request of a client with a valid URI over libcurl, where a handle is there, no setting is refused
-- and the transfer is whole, parses the chunks joined in order, wherever they are cut, if no byte of
-- them is zero: the client's response is what that text is parsed to.
pub request-concat :
    (curl : Curl) (c : Client) (method : Method) (path : Bytes) (chunks : List Bytes) (r : Response)
    → c.uri.is_valid ≡ true
    → curl.has_handle ≡ true
    → AcceptsAll curl
    → curl.perform (settings c method path) ≡ whole chunks
    → All (Without 0) chunks
    → Response.parse c.response (concat chunks) ≡ parsed r
    → request (some (over_curl curl)) method path c ≡ requested (record c { response = r })
unfolding request over_curl with_client
request-concat curl c method path chunks r v handle h e z p =
    simp (v, request) (rw (curl_request-concat curl c method path chunks handle h e z) (rw p refl))
