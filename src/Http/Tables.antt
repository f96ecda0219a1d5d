-- ===== src/Http/Tables.antt =====
-- HTTP_METHOD_MAP and HTTP_STATUS_MAP with the functions that they generate (tw/http/http.h,
-- tw/http/http.cc).
pub mod Methods
use Prim.Native.String.{String}
use tw_server.Base.{
  ℕ, zero, suc, ◌+◌, Bool, true, false, ◌&&◌, List, [], ◌∷◌, Option, none, some, ◌==◌, leb,
  if◌then◌else◌, codes, length,
}

-- Each name stands at its number.
unfoldable pub s_method_string : List (List ℕ)
s_method_string =
    codes "DELETE"
    ∷ codes "GET"
    ∷ codes "HEAD"
    ∷ codes "POST"
    ∷ codes "PUT"
    ∷ codes "CONNECT"
    ∷ codes "OPTIONS"
    ∷ codes "TRACE"
    ∷ codes "COPY"
    ∷ codes "LOCK"
    ∷ codes "MKCOL"
    ∷ codes "MOVE"
    ∷ codes "PROPFIND"
    ∷ codes "PROPPATCH"
    ∷ codes "SEARCH"
    ∷ codes "UNLOCK"
    ∷ codes "BIND"
    ∷ codes "REBIND"
    ∷ codes "UNBIND"
    ∷ codes "ACL"
    ∷ codes "REPORT"
    ∷ codes "MKACTIVITY"
    ∷ codes "CHECKOUT"
    ∷ codes "MERGE"
    ∷ codes "M-SEARCH"
    ∷ codes "NOTIFY"
    ∷ codes "SUBSCRIBE"
    ∷ codes "UNSUBSCRIBE"
    ∷ codes "PATCH"
    ∷ codes "PURGE"
    ∷ codes "MKCALENDAR"
    ∷ codes "LINK"
    ∷ codes "UNLINK"
    ∷ codes "SOURCE"
    ∷ []

-- The enumerator behind the last method.
abbrev pub invalid_mathod : ℕ
invalid_mathod = 34

-- The bytes of a std::string up to its first NUL, which is where C functions stop.
abbrev pub c_str : List ℕ → List ℕ
c_str [] = []
c_str (c ∷ s) = if c == 0 then [] else c ∷ c_str s

-- strcmp(a, b) == 0
abbrev pub same_string : List ℕ → List ℕ → Bool
same_string [] [] = true
same_string [] (b ∷ bs) = false
same_string (a ∷ s) [] = false
same_string (a ∷ s) (b ∷ bs) = a == b && same_string s bs

-- strncmp(name, m, strlen(name)) == 0, where the memory at m ends behind the list.
abbrev pub starts_with : List ℕ → List ℕ → Bool
starts_with [] m = true
starts_with (a ∷ s) [] = false
starts_with (a ∷ s) (b ∷ m) = a == b && starts_with s m

-- The `if` ladder of either function: the number of the first name that passes the test.
abbrev pub first_match : (List ℕ → Bool) → ℕ → List (List ℕ) → ℕ
first_match test i [] = i
first_match test i (name ∷ names) = if test name then i else first_match test (suc i) names

unfoldable pub string_to_http_method : List ℕ → ℕ
string_to_http_method m = first_match (λ name. same_string name (c_str m)) 0 s_method_string

unfoldable pub chars_to_http_method : List ℕ → ℕ
chars_to_http_method m = first_match (λ name. starts_with name m) 0 s_method_string

abbrev pub name_at : List (List ℕ) → ℕ → List ℕ
name_at [] i = codes "<unknown>"
name_at (name ∷ names) zero = name
name_at (name ∷ names) (suc i) = name_at names i

unfoldable pub http_method_to_string : ℕ → List ℕ
http_method_to_string m = name_at s_method_string m

unfoldable pub http_status_map : List (ℕ × String)
http_status_map =
    (100, "Continue")
    ∷ (101, "Switching Protocols")
    ∷ (102, "Processing")
    ∷ (200, "OK")
    ∷ (201, "Created")
    ∷ (202, "Accepted")
    ∷ (203, "Non-Authoritative Information")
    ∷ (204, "No Content")
    ∷ (205, "Reset Content")
    ∷ (206, "Partial Content")
    ∷ (207, "Multi-Status")
    ∷ (208, "Already Reported")
    ∷ (226, "IM Used")
    ∷ (300, "Multiple Choices")
    ∷ (301, "Moved Permanently")
    ∷ (302, "Found")
    ∷ (303, "See Other")
    ∷ (304, "Not Modified")
    ∷ (305, "Use Proxy")
    ∷ (307, "Temporary Redirect")
    ∷ (308, "Permanent Redirect")
    ∷ (400, "Bad Request")
    ∷ (401, "Unauthorized")
    ∷ (402, "Payment Required")
    ∷ (403, "Forbidden")
    ∷ (404, "Not Found")
    ∷ (405, "Method Not Allowed")
    ∷ (406, "Not Acceptable")
    ∷ (407, "Proxy Authentication Required")
    ∷ (408, "Request Timeout")
    ∷ (409, "Conflict")
    ∷ (410, "Gone")
    ∷ (411, "Length Required")
    ∷ (412, "Precondition Failed")
    ∷ (413, "Payload Too Large")
    ∷ (414, "URI Too Long")
    ∷ (415, "Unsupported Media Type")
    ∷ (416, "Range Not Satisfiable")
    ∷ (417, "Expectation Failed")
    ∷ (421, "Misdirected Request")
    ∷ (422, "Unprocessable Entity")
    ∷ (423, "Locked")
    ∷ (424, "Failed Dependency")
    ∷ (426, "Upgrade Required")
    ∷ (428, "Precondition Required")
    ∷ (429, "Too Many Requests")
    ∷ (431, "Request Header Fields Too Large")
    ∷ (451, "Unavailable For Legal Reasons")
    ∷ (500, "Internal Server Error")
    ∷ (501, "Not Implemented")
    ∷ (502, "Bad Gateway")
    ∷ (503, "Service Unavailable")
    ∷ (504, "Gateway Timeout")
    ∷ (505, "HTTP Version Not Supported")
    ∷ (506, "Variant Also Negotiates")
    ∷ (507, "Insufficient Storage")
    ∷ (508, "Loop Detected")
    ∷ (510, "Not Extended")
    ∷ (511, "Network Authentication Required")
    ∷ []

abbrev pub message_of : List (ℕ × String) → ℕ → List ℕ
message_of [] s = codes "<unknown>"
message_of ((code, msg) ∷ rest) s = if code == s then codes msg else message_of rest s

unfoldable pub http_status_to_string : ℕ → List ℕ
unfolding http_status_map
http_status_to_string s = message_of http_status_map s
