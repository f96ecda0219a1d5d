-- ===== src/Http/Parser/Callbacks.antt =====
-- What the parser callbacks accept (tw/http/http_parser.cc).
use tw_server.Base.{
  ℕ, ◌≡◌, ◌<◌, refl, ap, ◌∙◌, true, false, List, [], ◌∷◌, ◌++◌, codes, ◌==◌, arith, subst,
  append_assoc,
}
use tw_server.Http.Tables.{chars_to_http_method, http_method_to_string, invalid_mathod}
use tw_server.Http.Tables.Methods.{chars_to_http_method-append}
use tw_server.Http.Parser.{RequestParser, on_request_method, on_request_http_version, strncmp_equal}

-- A method token that begins with the name of a method is taken for that method, and no error is
-- set, whatever else the token holds.
on_request_method_prefix :
    (m : ℕ) (more behind : List ℕ) (p : RequestParser)
    → m < invalid_mathod
    → ((on_request_method (http_method_to_string m ++ more) behind p).request.method ≡ m)
      × ((on_request_method (http_method_to_string m ++ more) behind p).error ≡ p.error)
unfolding on_request_method
on_request_method_prefix m more behind p h =
    let read : chars_to_http_method ((http_method_to_string m ++ more) ++ behind) ≡ m =
      ap chars_to_http_method (append_assoc (http_method_to_string m) more behind)
      ∙ chars_to_http_method-append m (more ++ behind) h in
    let known : (m == invalid_mathod) ≡ false = ground arith in rw (read, known) (refl, refl)

prefix_equal : (token more : List ℕ) → strncmp_equal token (token ++ more) ≡ true
prefix_equal [] more = refl
prefix_equal (a ∷ s) more = ground (arith, prefix_equal s more)

-- Every beginning of the text `HTTP/1.1`, the empty one too, is taken for version 1.1 with no
-- error.
on_request_http_version_prefix :
    (token more : List ℕ) (p : RequestParser)
    → token ++ more ≡ codes "HTTP/1.1"
    → ((on_request_http_version token p).request.version ≡ 0x11)
      × ((on_request_http_version token p).error ≡ p.error)
unfolding on_request_http_version
on_request_http_version_prefix token more p e =
    let same : strncmp_equal token (codes "HTTP/1.1") ≡ true =
      subst (λ t. strncmp_equal token t ≡ true) e (prefix_equal token more) in
    rw same (refl, refl)
