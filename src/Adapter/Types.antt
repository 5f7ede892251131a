-- ===== src/Adapter/Types.antt =====
-- src/tlcp_hybrid_cert_adapter.c and its header: the results, the report and the configuration.
use hybrid_pqc_cert.Prelude.{
  Bool, false, not, Option, none, some, Bytes, Slice, replicate, if◌then◌else◌, Out,
}
use hybrid_pqc_cert.CompositeKey.{sm2_octets}
use hybrid_pqc_cert.Chain.{CertResult, no_cert_result, ChainResult}

-- TLCP_HYBRID_CERT_RESULT
pub data Result : Type 0 where
  invalid not_applicable valid : Result

abbrev pub no_chain_result : ChainResult
no_chain_result = record {
  trust_anchor_configured = false;
  root = no_cert_result;
  server = no_cert_result;
  chain_valid = false;
}

-- TLCP_HYBRID_CERT_VERIFY_REPORT
pub record Report : Type 0 where
  pub recognized_composite : Bool
  pub oid_ok : Bool
  pub pqc_marker_ok : Bool
  pub issuer_subject_ok : Bool
  pub validity_ok : Bool
  pub constraints_ok : Bool
  pub key_usage_ok : Bool
  pub hostname_ok : Bool
  pub dilithium_ok : Bool
  pub sm2_ok : Bool
  pub composite_ok : Bool
  pub encryption_subject_spki_sm2_ok : Bool
  pub encryption_oid_ok : Bool
  pub encryption_pqc_marker_ok : Bool
  pub encryption_dilithium_ok : Bool
  pub encryption_sm2_ok : Bool
  pub encryption_composite_ok : Bool
  pub encryption_certificate_ok : Bool
  pub tlcp_dual_identity_ok : Bool
  pub tlcp_dual_certificate_ok : Bool
  pub chain : ChainResult
  pub encryption : CertResult

abbrev pub no_report : Report
no_report = record {
  recognized_composite = false;
  oid_ok = false;
  pqc_marker_ok = false;
  issuer_subject_ok = false;
  validity_ok = false;
  constraints_ok = false;
  key_usage_ok = false;
  hostname_ok = false;
  dilithium_ok = false;
  sm2_ok = false;
  composite_ok = false;
  encryption_subject_spki_sm2_ok = false;
  encryption_oid_ok = false;
  encryption_pqc_marker_ok = false;
  encryption_dilithium_ok = false;
  encryption_sm2_ok = false;
  encryption_composite_ok = false;
  encryption_certificate_ok = false;
  tlcp_dual_identity_ok = false;
  tlcp_dual_certificate_ok = false;
  chain = no_chain_result;
  encryption = no_cert_result;
}

-- TLCP_HYBRID_CERT_ADAPTER_CONFIG
pub record Config : Type 0 where
  pub trust_anchor_der : Slice
  pub expected_hostname : Option Bytes
  pub last_report : Out Report

-- The caller's buffer for the SM2 key: NULL, unknown bytes, or these bytes.
abbrev pub KeyBuffer : Type 0
KeyBuffer = Out (Option Bytes)

abbrev pub clear_buffer : KeyBuffer → KeyBuffer
clear_buffer none = none
clear_buffer (some old) = some (some (replicate sm2_octets 0))

-- What `tlcp_hybrid_cert_verify_der` returns, and what it leaves in the key buffer and in the report.
pub record Outcome (W : Type 0) : Type 0 where
  pub result : Result
  pub key_buffer : KeyBuffer
  pub report : Report
  pub world : W

-- The end of `tlcp_hybrid_cert_verify_der`.
abbrev pub conclude : {W : Type 0} → Report → Bool → KeyBuffer → W → Outcome W
conclude report chain_ok buffer w = record {
  result =
      if not report.recognized_composite
      then not_applicable
      else if chain_ok
      then valid
      else invalid;
  key_buffer = buffer;
  report = report;
  world = w;
}
