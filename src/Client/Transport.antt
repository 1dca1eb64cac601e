-- ===== src/Client/Transport.antt =====
-- The transports that a session offers: crates/ket-core/src/contract.rs.
use ket.Common.{ℕ, Option, Text, Map}
use ket.Server.Model.{TransportProtocol}

pub data Network : Type 0 where
  tcp udp tcp_and_udp : Network

pub record TransportProfile : Type 0 where
  pub id : Text
  pub display_name : Text
  pub protocol : TransportProtocol
  pub endpoint : Text
  pub port : ℕ
  pub network : Network
  pub priority : ℕ
  pub tls_server_name : Option Text
  pub options : Map Text Text

pub record TransportCredential : Type 0 where
  pub auth : Text
  pub secrets : Map Text Text

pub record SessionTransport : Type 0 where
  pub profile : TransportProfile
  pub credential : Option TransportCredential
