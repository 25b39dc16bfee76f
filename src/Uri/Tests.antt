-- ===== src/Uri/Tests.antt =====
-- The URI theorems at concrete strings, and runs of the coding and the parser.
use libcoda_net.Base.{some, [], ◌∷◌, ◌++◌, ◌≡◌, refl, arith, Bytes, All, ascii}
use libcoda_net.Uri.Codec.{encode, decode}
use libcoda_net.Uri.RoundTrip.{IsByte, decode-encode}
use libcoda_net.Uri.Parse.{uri, run_uri}
use libcoda_net.Uri.Components.{uri-write}
use libcoda_net.Uri.Writing.{Components, IsComponents, write, read}

abbrev phrase : Bytes
phrase = ascii "a b&c=~1+%" ++ (0 ∷ 255 ∷ [])

phrase-IsByte : All IsByte phrase
phrase-IsByte = omega arith

decode-encode_example : decode (encode phrase) ≡ phrase
decode-encode_example = decode-encode phrase phrase-IsByte

encode_phrase : encode (ascii "a b/") ≡ ascii "a%20b%2F"
unfolding encode
encode_phrase = refl

decode_loose : decode (ascii "a+b%2") ≡ ascii "a b2"
unfolding decode
decode_loose = refl

abbrev parts : Components
parts = record {
  scheme = ascii "HTTP";
  credentials = some (ascii "me", some (ascii "pw"));
  host = ascii "Host.org";
  port = some (ascii "8080");
  path = some (ascii "a/b", some (ascii "x=1"), some (ascii "top"));
}

parts-IsComponents : IsComponents parts
parts-IsComponents = omega arith

uri-write_example : uri (write parts) [] ≡ read parts
uri-write_example = uri-write parts [] parts-IsComponents

write-parts : write parts ≡ ascii "HTTP://me:pw@Host.org:8080/a/b?x=1#top"
unfolding write
write-parts = refl

parse_parts : (run_uri (ascii "HTTP://me:pw@Host.org:8080/a/b?x=1#top") []).password ≡ ascii ":pw"
unfolding run_uri
parse_parts = refl

parse_no_query : (run_uri (ascii "http://h/p#f") []).path ≡ ascii "p#f"
unfolding run_uri
parse_no_query = refl
