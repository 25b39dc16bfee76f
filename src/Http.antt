-- ===== src/Http.antt =====
-- http/protocol.h and http/client.h: the messages and the methods. The children model the parser of
-- responses, the client, and the implementation over a socket.
pub mod Scan
pub mod Response
pub mod Messages
pub mod Parsing
pub mod Client
pub mod Request
pub mod Exchange
pub mod Curl
pub mod Chunks
pub mod OneBlock
pub mod Answered
pub mod Order
pub mod Objects
pub mod Headers
mod Tests
use libcoda_net.Base.{ℕ, [], Bytes, ascii, Dict}

abbrev pub max_url_len : ℕ
max_url_len = 2000

abbrev pub version_1_1 : Bytes
version_1_1 = ascii "1.1"

pub data Method : Type 0 where
  options head get post put delete connect trace : Method

abbrev pub method_name : Method → Bytes
method_name options = ascii "OPTIONS"
method_name head = ascii "HEAD"
method_name get = ascii "GET"
method_name post = ascii "POST"
method_name put = ascii "PUT"
method_name delete = ascii "DELETE"
method_name connect = ascii "CONNECT"
method_name trace = ascii "TRACE"

-- The members that a request and a response share.
pub record Transfer : Type 0 where
  pub content : Bytes
  pub headers : Dict
  pub version : Bytes

abbrev pub transfer : Transfer
transfer = record { content = []; headers = []; version = version_1_1 }
