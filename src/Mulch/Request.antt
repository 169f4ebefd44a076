-- ===== src/Mulch/Request.antt =====
-- mulch/request.go: an HTTP request on its way through the tunnel. The type of parsed URLs is the
-- standard library's, with its printer and its parser.
use Prim.Native.String.{String}
use wsp.Base.{◌≡◌, Option, none, some, arith}
use wsp.Base.Int.{ℤ}
use wsp.Mulch.Response.{Header}
use wsp.Runtime.{Result, ok, panics, nil_dereference}

-- `HTTPRequest`
pub record HttpRequest : Type 0 where
  pub method : String
  pub url : String
  pub header : Header
  pub content_length : ℤ
  pub remote_addr : String
  pub host : String
  pub proto : String
  pub request_uri : String

-- The fields of `http.Request` that travel; `none` is the nil pointer.
pub record Request (Url : Type 0) : Type 0 where
  pub method : String
  pub url : Option Url
  pub header : Header
  pub content_length : ℤ
  pub remote_addr : String
  pub host : String
  pub proto : String
  pub request_uri : String

module _ {Url : Type 0} where
  -- The value that `SerializeHTTPRequest` fills in, for the text of the URL.
  abbrev serialized : Request Url → String → HttpRequest
  serialized req text = record {
    method = req.method;
    url = text;
    header = req.header;
    content_length = req.content_length;
    remote_addr = req.remote_addr;
    host = req.host;
    proto = req.proto;
    request_uri = req.request_uri;
  }

  -- `SerializeHTTPRequest`, which dereferences the URL.
  unfoldable pub serialize_http_request : (Url → String) → Request Url → Result HttpRequest
  serialize_http_request to_string req = elim req.url [
    | none ↦ panics nil_dereference
    | some u ↦ ok (serialized req (to_string u))
  ]

  -- `UnserializeHTTPRequest`: a URL that cannot be parsed is left nil.
  unfoldable pub unserialize_http_request : (String → Option Url) → HttpRequest → Request Url
  unserialize_http_request parse req = record {
    method = req.method;
    url = parse req.url;
    header = req.header;
    content_length = req.content_length;
    remote_addr = req.remote_addr;
    host = req.host;
    proto = req.proto;
    request_uri = req.request_uri;
  }

  -- A request comes out of the tunnel as it went in, if the parser of URLs reads back what their
  -- printer wrote.
  pub unserialize-serialize :
      (to_string : Url → String) (parse : String → Option Url) (req : Request Url) (u : Url)
      → req.url ≡ some u
      → parse (to_string u) ≡ some u
      → (out : HttpRequest) × (serialize_http_request to_string req ≡ ok out)
        × (unserialize_http_request parse out ≡ req)
  unfolding serialize_http_request unserialize_http_request
  unserialize-serialize to_string parse req u e h =
      (serialized req (to_string u), rw (e, serialize_http_request), ground arith)
