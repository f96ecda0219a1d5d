-- ===== src/Http/Message.antt =====
-- HttpRequest and HttpRespond with their printed form (tw/http/http.h, tw/http/http.cc).
pub mod Connection
use tw_server.Base.{
  ℕ, zero, suc, ◌+◌, ◌/◌, ◌%◌, Bool, true, false, List, [], ◌∷◌, ◌++◌, ltb, length, codes,
  if◌then◌else◌, not, ◌&&◌,
}
use tw_server.Http.Tables.{http_method_to_string, http_status_to_string}
use tw_server.Http.Headers.{Map, insert, erase, key_less}

pub record HttpRequest : Type 0 where
  pub method : ℕ
  pub path : List ℕ
  pub version : ℕ
  pub close : Bool
  pub query : List ℕ
  pub fragment : List ℕ
  pub body : List ℕ
  pub headers : Map
  pub params : Map
  pub cookies : Map

pub record HttpRespond : Type 0 where
  pub version : ℕ
  pub status : ℕ
  pub close : Bool
  pub body : List ℕ
  pub reason : List ℕ
  pub headers : Map

-- GET and "/".
unfoldable pub new_request : ℕ → Bool → HttpRequest
new_request version close = record {
  method = 1;
  path = codes "/";
  version = version;
  close = close;
  query = [];
  fragment = [];
  body = [];
  headers = [];
  params = [];
  cookies = [];
}

unfoldable pub new_respond : ℕ → Bool → HttpRespond
new_respond version close = record {
  version = version;
  status = 200;
  close = close;
  body = [];
  reason = [];
  headers = [];
}

unfoldable pub set_header : List ℕ → List ℕ → HttpRequest → HttpRequest
set_header key val r = record r { headers = insert key val r.headers }

unfoldable pub set_param : List ℕ → List ℕ → HttpRequest → HttpRequest
set_param key val r = record r { params = insert key val r.params }

unfoldable pub set_cookie : List ℕ → List ℕ → HttpRequest → HttpRequest
set_cookie key val r = record r { cookies = insert key val r.cookies }

unfoldable pub del_header : List ℕ → HttpRequest → HttpRequest
del_header key r = record r { headers = erase key r.headers }

unfoldable pub del_param : List ℕ → HttpRequest → HttpRequest
del_param key r = record r { params = erase key r.params }

unfoldable pub del_cookie : List ℕ → HttpRequest → HttpRequest
del_cookie key r = record r { cookies = erase key r.cookies }

unfoldable pub set_respond_header : List ℕ → List ℕ → HttpRespond → HttpRespond
set_respond_header key val r = record r { headers = insert key val r.headers }

unfoldable pub del_respond_header : List ℕ → HttpRespond → HttpRespond
del_respond_header key r = record r { headers = erase key r.headers }

-- `os << n` of a number, by the digits that are left; a number below 10 ^ (n + 1) is printed whole.
abbrev pub decimal_digits : ℕ → ℕ → List ℕ → List ℕ
decimal_digits zero x rest = (48 + x % 10) ∷ rest
decimal_digits (suc n) x rest =
    let more = decimal_digits n (x / 10) ((48 + x % 10) ∷ rest) in
    if ltb x 10 then (48 + x) ∷ rest else more

-- Twenty digits hold every 64-bit number.
unfoldable pub to_decimal : ℕ → List ℕ
to_decimal x = decimal_digits 19 x []

abbrev pub crlf : List ℕ
crlf = 13 ∷ 10 ∷ []

abbrev pub is_empty : List ℕ → Bool
is_empty [] = true
is_empty (c ∷ s) = false

-- `strcasecmp(key, "connection") == 0`
abbrev pub is_connection : List ℕ → Bool
is_connection k = not (key_less k (codes "connection")) && not (key_less (codes "connection") k)

unfoldable pub dump_headers : Map → List ℕ
dump_headers [] = []
dump_headers ((k, v) ∷ m) =
    if is_connection k then dump_headers m else k ++ (codes ":" ++ (v ++ (crlf ++ dump_headers m)))

unfoldable pub connection_line : Bool → List ℕ
connection_line close =
    codes "connection: " ++ ((if close then codes "close" else codes "keep-alive") ++ crlf)

unfoldable pub dump_body : List ℕ → List ℕ
dump_body body =
    if is_empty body
    then crlf
    else codes "content-length: " ++ (to_decimal (length body) ++ (crlf ++ (crlf ++ body)))

unfoldable pub dump_version : ℕ → List ℕ
dump_version version =
    codes "HTTP/" ++ (to_decimal (version / 16) ++ (codes "." ++ to_decimal (version % 16)))

unfoldable pub dump_request : HttpRequest → List ℕ
dump_request r =
    http_method_to_string r.method
    ++ (codes " "
        ++ (r.path
            ++ ((if is_empty r.query then [] else codes "?")
                ++ (r.query
                    ++ ((if is_empty r.fragment then [] else codes "#")
                        ++ (r.fragment
                            ++ (codes " "
                                ++ (dump_version r.version
                                    ++ (crlf
                                        ++ (connection_line r.close
                                            ++ (dump_headers r.headers
                                                ++ dump_body r.body)))))))))))

unfoldable pub dump_respond : HttpRespond → List ℕ
dump_respond r =
    dump_version r.version
    ++ (codes " "
        ++ (to_decimal r.status
            ++ (codes " "
                ++ ((if is_empty r.reason then http_status_to_string r.status else r.reason)
                    ++ (crlf
                        ++ (dump_headers r.headers
                            ++ (connection_line r.close ++ dump_body r.body)))))))
