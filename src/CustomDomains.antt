-- ===== src/CustomDomains.antt =====
-- The custom domains of the control plane: the row of internal/store/custom_domains.go, what
-- internal/customdomains reads besides, and the world that one pass over a domain changes.
pub mod Store
pub mod Verify
pub mod Manager
pub mod Backoff
pub mod Points
pub mod Orders
pub mod Renewal
pub mod Retry
mod Examples
use brisk.Prelude.{ℕ, Bytes, Option, Bool, List, Assoc}

pub data Status : Type 0 where
  pending_dns verifying issuing active renewing failed : Status

-- type CustomDomain
pub record CustomDomain : Type 0 where
  pub id : ℕ
  pub zone_id : ℕ
  pub account_id : ℕ
  pub domain : Bytes
  pub status : Status
  pub verify_method : Bytes
  pub cert_name : Bytes
  pub last_error : Bytes
  pub attempt_count : ℕ
  pub last_verified_at : Option ℕ
  pub next_attempt_at : Option ℕ
  pub created_at : ℕ
  pub updated_at : ℕ

-- type TLSCert of internal/store/tls.go, without its id and its time stamp
pub record TlsCert : Type 0 where
  pub name : Bytes
  pub domains : Bytes
  pub full_chain : Bytes
  pub priv_key : Bytes
  pub issuer : Bytes
  pub serial : Bytes
  pub staging : Bool
  pub not_before : Option ℕ
  pub not_after : Option ℕ

-- the columns of a zone that the manager reads and writes
pub record ZoneRow : Type 0 where
  pub id : ℕ
  pub cdn_hostname : Bytes
  pub config_version : ℕ

-- what the manager reads of an x509.Certificate
pub record Leaf : Type 0 where
  pub common_name : Bytes
  pub serial_number : Bytes
  pub not_before : ℕ
  pub not_after : ℕ

-- type Bundle of the issuer
pub record Bundle : Type 0 where
  pub full_chain : Bytes
  pub priv_key : Bytes
  pub leaf : Option Leaf

-- what a call returns: a value, or the text of an error
pub data Answer {ℓ} (A : Type ℓ) : Type ℓ where
  answer : A → Answer A
  failure : Bytes → Answer A

-- The resolver and the ACME issuer during one pass, and the parser of certificates.
pub record Net : Type 0 where
  pub lookup_cname : Bytes → Answer Bytes
  pub lookup_host : Bytes → Answer (List Bytes)
  pub obtain_http01 : Bytes → Option Leaf → Answer Bundle
  pub parse_leaf : Bytes → Option Leaf
  -- the text of an error of the database
  pub db_error : Bytes

-- The tables, with the rows of `domains` in the order of their ids; the addresses of the servers;
-- which of the database calls to come fail; and the domains for which ACME orders were made.
pub record World : Type 0 where
  pub domains : List CustomDomain
  pub certs : Assoc TlsCert
  pub zones : List ZoneRow
  pub server_ips : List Bytes
  pub faults : List Bool
  pub orders : List Bytes
