-- ===== src/Http/Parser.antt =====
-- The callbacks that tw/http/http_parser.cc hands to the parsing machines. A callback's text is the
-- bytes of the token; `data` behind the token belongs to the request line still to come.
pub mod Callbacks
use tw_server.Base.{
  ℕ, ◌+◌, ◌-◌, ◌*◌, Bool, true, false, not, ◌&&◌, ◌||◌, List, [], ◌∷◌, ◌++◌, length, codes, ◌==◌,
  leb, if◌then◌else◌,
}
use tw_server.Http.Tables.{chars_to_http_method, invalid_mathod}
use tw_server.Http.Message.{
  HttpRequest, HttpRespond, set_header, set_respond_header, new_request, new_respond,
}

-- HttpRequestParser without its machine.
pub record RequestParser : Type 0 where
  pub request : HttpRequest
  pub error : ℕ

pub record RespondParser : Type 0 where
  pub respond : HttpRespond
  pub error : ℕ

unfoldable pub new_request_parser : RequestParser
new_request_parser = record { request = new_request 0x11 true; error = 0 }

unfoldable pub new_respond_parser : RespondParser
new_respond_parser = record { respond = new_respond 0x11 true; error = 0 }

abbrev pub is_empty : List ℕ → Bool
is_empty [] = true
is_empty (c ∷ s) = false

unfoldable pub on_request_http_field : List ℕ → List ℕ → RequestParser → RequestParser
on_request_http_field field value p =
    if is_empty field
    then record p { error = 1002 }
    else record p { request = set_header field value p.request }

-- CharsToHttpMethod gets the pointer alone, and so reads on behind the token.
unfoldable pub on_request_method : List ℕ → List ℕ → RequestParser → RequestParser
on_request_method token behind p =
    let m = chars_to_http_method (token ++ behind) in
    if m == invalid_mathod
    then record p { error = 1000 }
    else record p { request = record (p.request) { method = m } }

unfoldable pub on_request_uri : List ℕ → RequestParser → RequestParser
on_request_uri token p = p

unfoldable pub on_request_fragment : List ℕ → RequestParser → RequestParser
on_request_fragment token p = record p { request = record (p.request) { fragment = token } }

unfoldable pub on_request_path : List ℕ → RequestParser → RequestParser
on_request_path token p = record p { request = record (p.request) { path = token } }

unfoldable pub on_request_query_string : List ℕ → RequestParser → RequestParser
on_request_query_string token p = record p { request = record (p.request) { query = token } }

-- strncmp(at, text, length) == 0 for the token of that length.
abbrev pub strncmp_equal : List ℕ → List ℕ → Bool
strncmp_equal [] text = true
strncmp_equal (a ∷ s) [] = a == 0
strncmp_equal (a ∷ s) (b ∷ text) = a == b && (a == 0 || strncmp_equal s text)

unfoldable pub on_request_http_version : List ℕ → RequestParser → RequestParser
on_request_http_version token p =
    if strncmp_equal token (codes "HTTP/1.1")
    then record p { request = record (p.request) { version = 0x11 } }
    else if strncmp_equal token (codes "HTTP/1.0")
    then record p { request = record (p.request) { version = 0x10 } }
    else record p { error = 1001 }

unfoldable pub on_respond_http_field : List ℕ → List ℕ → RespondParser → RespondParser
on_respond_http_field field value p =
    if is_empty field
    then record p { error = 1002 }
    else record p { respond = set_respond_header field value p.respond }

unfoldable pub on_respond_reason_phrase : List ℕ → RespondParser → RespondParser
on_respond_reason_phrase token p = record p { respond = record (p.respond) { reason = token } }

-- atoi of a run of digits, read on behind the token to the first byte that is no digit.
abbrev pub atoi : ℕ → List ℕ → ℕ
atoi acc [] = acc
atoi acc (c ∷ s) = if leb 48 c && leb c 57 then atoi (acc * 10 + (c - 48)) s else acc

unfoldable pub on_respond_status_code : List ℕ → List ℕ → RespondParser → RespondParser
on_respond_status_code token behind p = record p {
  respond = record (p.respond) { status = atoi 0 (token ++ behind) };
}

unfoldable pub on_respond_http_version : List ℕ → RespondParser → RespondParser
on_respond_http_version token p =
    if strncmp_equal token (codes "HTTP/1.1")
    then record p { respond = record (p.respond) { version = 0x11 } }
    else if strncmp_equal token (codes "HTTP/1.0")
    then record p { respond = record (p.respond) { version = 0x10 } }
    else record p { error = 1001 }

-- `hasError()`, where the machine's own answer is the second argument.
unfoldable pub has_error : ℕ → Bool → Bool
has_error error machine_error = not (error == 0) || machine_error
