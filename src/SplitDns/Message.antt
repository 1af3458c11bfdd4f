-- ===== src/SplitDns/Message.antt =====
-- The fields of the messages of github.com/miekg/dns that application/split-dns/src reads, and
-- the functions of that package, which are parameters.
use k8s_at_home.Prelude.{ℕ, String, Bool, List}

pub record Question : Type 0 where
  pub name : String
  pub qtype : ℕ
  pub qclass : ℕ

-- A resource record: an SOA by its TTL and minimum TTL, an EDNS0 OPT by its DO bit, UDP size,
-- version and whether it has options, and any other by its TTL and data.
pub data Rr : Type 0 where
  soa : ℕ → ℕ → Rr
  opt : Bool → ℕ → ℕ → Bool → Rr
  other : ℕ → String → Rr

pub record Msg : Type 0 where
  pub id : ℕ
  pub response : Bool
  pub opcode : ℕ
  pub truncated : Bool
  pub recursion_desired : Bool
  pub authenticated_data : Bool
  pub checking_disabled : Bool
  pub rcode : ℕ
  pub question : List Question
  pub answer : List Rr
  pub ns : List Rr
  pub extra : List Rr

abbrev pub opcode_query : ℕ
opcode_query = 0

abbrev pub rcode_success : ℕ
rcode_success = 0

abbrev pub rcode_format_error : ℕ
rcode_format_error = 1

abbrev pub rcode_server_failure : ℕ
rcode_server_failure = 2

abbrev pub rcode_name_error : ℕ
rcode_name_error = 3

-- The functions of the package, and strings.ToLower.
pub record Library : Type 0 where
  pub fqdn : String → String
  pub to_lower : String → String
  -- IsDomainName
  pub is_domain_name : String → Bool
  pub canonical_name : String → String
  -- CompareDomainName: the number of labels that two names have in common, from the right
  pub compare_domain_name : String → String → ℕ
  pub count_label : String → ℕ
  -- Len: the length of the message on the wire
  pub len : Msg → ℕ
  -- IsTsig: the message ends in a TSIG record
  pub is_tsig : Msg → Bool
  -- Truncate to a number of bytes
  pub truncate : Msg → ℕ → Msg
