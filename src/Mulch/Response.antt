-- ===== src/Mulch/Response.antt =====
-- mulch/response.go: the head of an HTTP response on its way through the tunnel.
use Prim.Native.String.{String}
use wsp.Base.{List, []}
use wsp.Base.Int.{ℤ, pos}

-- `http.Header`, with its entries in the order in which a loop meets them.
abbrev pub Header : Type 0
Header = List (String × List String)

abbrev pub proxy_error_code : ℤ
proxy_error_code = pos 526

abbrev pub client_error_code : ℤ
client_error_code = pos 527

-- `HTTPResponse`, the head of a response on its way through the tunnel.
pub record HttpResponse : Type 0 where
  pub status_code : ℤ
  pub header : Header
  pub content_length : ℤ

-- `http.Response`, without its body: the text of the status does not travel.
pub record Response : Type 0 where
  pub status : String
  pub status_code : ℤ
  pub header : Header
  pub content_length : ℤ

-- `SerializeHTTPResponse`, before it is encoded.
abbrev pub serialize_http_response : Response → HttpResponse
serialize_http_response resp = record {
  status_code = resp.status_code;
  header = resp.header;
  content_length = resp.content_length;
}

-- `NewHTTPResponse`, before it is encoded.
abbrev pub new_http_response : ℤ → ℤ → HttpResponse
new_http_response code size = record { status_code = code; header = []; content_length = size }
