-- ===== src/Http.antt =====
-- tw/http/http.h and tw/http/http.cc: methods, status codes, header maps, requests and responses.
-- A std::string is the list of its bytes. An enumerator of HttpMethod or HttpStatus is its number.
pub mod Tables
pub mod Headers
pub mod Message
pub mod Parser
pub mod Session
pub mod Serving
mod Examples
