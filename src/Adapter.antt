-- ===== src/Adapter.antt =====
-- src/tlcp_hybrid_cert_adapter.c: the verdict on a TLCP certificate chain in DER, and the callback
-- that GmSSL makes. The report is not printed.
pub mod Types
pub mod Scan
pub mod Verdict
pub mod Callback
use mathlib.Core.Option
use hybrid_pqc_cert.Prelude.{
  ℕ, zero, suc, ◌+◌, ◌-◌, Bool, true, false, not, ◌&&◌, ◌||◌, Option, none, some, [], ◌∷◌, Bytes,
  Slice, null, bytes, length, take, drop, replicate, slice_length, contents, bytes_eq, ltb, leb,
  ◌==◌, if◌then◌else◌, Prog, ◌>>=◌, ◌>>◌, pure, guard, from_option, present, attempt, test,
  or_default, is_some, Out,
}
use hybrid_pqc_cert.Crypto.{Crypto}
use hybrid_pqc_cert.Pki.{Pki, Algorithm}
use Types.{
  Result, invalid, not_applicable, valid, no_chain_result, Report, no_report, Config, KeyBuffer,
  clear_buffer, Outcome, conclude,
}
use Scan.{contains_composite_oid}
use hybrid_pqc_cert.CompositeKey.{composite_get_sm2_public_key_octets}
use hybrid_pqc_cert.CompositeSig.{long_max}
use hybrid_pqc_cert.X509.{
  composite_oid, hybrid_x509_composite_algorithms_valid, hybrid_x509_has_pqc_extension,
  hybrid_x509_get_composite_public_key,
}
use hybrid_pqc_cert.Chain.{ChainResult, hybrid_verify_chain, hybrid_verify_encryption_certificate}

module _ (C : Crypto) (P : Pki C) where
  open C use {World, Key}
  open P use {X509, Oid}

  unfoldable pub decode_der_strict : Slice → Prog World X509
  decode_der_strict slice = do
    der ← present slice
    guard (not (length der == 0) && leb (length der) long_max)
    (certificate, consumed) ← P.d2i_x509 der
    guard (consumed == length der)
    pure certificate

  -- The certificate, and how much of the input it takes up.
  unfoldable pub decode_next_certificate : Slice → Prog World (X509 × ℕ)
  decode_next_certificate slice = do
    der ← present slice
    guard (not (length der == 0) && leb (length der) long_max)
    (certificate, consumed) ← P.d2i_x509 der
    guard (not (consumed == 0) && leb consumed (length der))
    pure (certificate, consumed)

  abbrev algorithm_is : Oid → Option (Algorithm Oid) → Bool
  algorithm_is composite none = false
  algorithm_is composite (some a) = elim a.object [ none ↦ false | some o ↦ P.obj_eq o composite ]

  unfoldable pub certificate_mentions_composite : X509 → Prog World (Unit {0})
  certificate_mentions_composite c = do
    composite ← P.obj_txt2obj composite_oid
    guard (
        algorithm_is composite (P.get0_signature_algorithm c)
        || algorithm_is composite (P.get0_tbs_sigalg c))

  -- The octets that `tlcp_hybrid_cert_get_sm2_sign_public_key` puts out, given whether there is a
  -- buffer for them.
  unfoldable pub get_sm2_sign_public_key : Slice → Bool → Prog World Bytes
  get_sm2_sign_public_key cert_der has_buffer = do
    certificate ← decode_der_strict cert_der
    guard (hybrid_x509_composite_algorithms_valid C P (some certificate))
    public_key ← hybrid_x509_get_composite_public_key C P (some certificate)
    composite_get_sm2_public_key_octets C (some public_key) has_buffer

  -- A failure may leave anything in the buffer.
  unfoldable pub tlcp_hybrid_cert_get_sm2_sign_public_key :
      Slice → KeyBuffer → World → Bool × KeyBuffer × World
  tlcp_hybrid_cert_get_sm2_sign_public_key cert_der none w =
      let r = get_sm2_sign_public_key cert_der false w in (is_some r.0, none, r.1)
  tlcp_hybrid_cert_get_sm2_sign_public_key cert_der (some old) w =
      let r = get_sm2_sign_public_key cert_der true w in (is_some r.0, some r.0, r.1)

  unfoldable pub verify_chain_of : Option X509 → X509 → World → ChainResult × World
  verify_chain_of none signing w = (no_chain_result, w)
  verify_chain_of (some root) signing w = hybrid_verify_chain C P (some root) (some signing) w

  -- No name to check, or a name that the certificate has.
  unfoldable pub host_ok : X509 → Option Bytes → World → Bool × World
  host_ok signing none w = (true, w)
  host_ok signing (some []) w = (true, w)
  host_ok signing (some (x ∷ xs)) w = let r = P.check_host signing (x ∷ xs) w in (is_some r.0, r.1)

  -- The last condition: the key is put out only where everything before it holds.
  unfoldable pub put_key : Bool → Slice → KeyBuffer → World → Bool × KeyBuffer × World
  put_key false signing_der buffer w = (false, buffer, w)
  put_key true signing_der none w = (false, none, w)
  put_key true signing_der (some old) w =
      tlcp_hybrid_cert_get_sm2_sign_public_key signing_der (some old) w

  -- `tlcp_hybrid_cert_verify_der` for a decoded certificate that mentions the composite algorithm.
  unfoldable pub examine : X509 → Slice → Slice → Option Bytes → KeyBuffer → World → Outcome World
  examine signing signing_der anchor hostname buffer w =
      let oid : Bool = hybrid_x509_composite_algorithms_valid C P (some signing) in
      let marker = hybrid_x509_has_pqc_extension C P (some signing) w in
      let root = decode_der_strict anchor marker.1 in
      let chain = verify_chain_of root.0 signing root.1 in
      let host = host_ok signing hostname chain.1 in
      let fine : Bool = oid && is_some marker.0 && (chain.0).chain_valid && host.0 in
      let key = put_key fine signing_der buffer host.1 in
      conclude
        (record no_report {
          recognized_composite = true;
          oid_ok = oid;
          pqc_marker_ok = is_some marker.0;
          issuer_subject_ok = (chain.0).server.issuer_subject_link_valid;
          validity_ok = (chain.0).root.validity_valid && (chain.0).server.validity_valid;
          constraints_ok =
              (chain.0).server.issuer_ca_constraints_valid
              && (chain.0).server.subject_constraints_valid;
          key_usage_ok = (chain.0).server.subject_constraints_valid;
          hostname_ok = host.0;
          dilithium_ok = (chain.0).server.dilithium_valid;
          sm2_ok = (chain.0).server.sm2_valid;
          composite_ok = (chain.0).server.composite_valid;
          chain = chain.0;
        })
        key.0 key.1 key.2

  unfoldable pub tlcp_hybrid_cert_verify_der :
      Slice → Slice → Option Bytes → KeyBuffer → World → Outcome World
  tlcp_hybrid_cert_verify_der signing_der anchor hostname buffer w =
      let cleared : KeyBuffer = clear_buffer buffer in
      let decoded = decode_der_strict signing_der w in
      elim decoded.0 [
        | none ↦
            conclude
              (record no_report { recognized_composite = contains_composite_oid signing_der }) false
              cleared decoded.1
        | some signing ↦
            let mentions = certificate_mentions_composite signing decoded.1 in
            elim mentions.0 [
              | none ↦ conclude no_report false cleared mentions.1
              | some _ ↦ examine signing signing_der anchor hostname cleared mentions.1
            ]
      ]

  -- The first certificate of the chain: itself, its DER, and what follows. A first certificate that
  -- cannot be decoded has an empty DER, and the reading goes on where it stood.
  unfoldable pub first_certificate : Slice → World → Option X509 × Slice × Slice × World
  first_certificate (null n) w = (none, null 0, null n, (decode_next_certificate (null n) w).1)
  first_certificate (bytes der) w =
      let r = decode_next_certificate (bytes der) w in
      elim r.0 [
        | none ↦ (none, bytes [], bytes der, r.1)
        | some (signing, consumed) ↦
            (some signing, bytes (take consumed der), bytes (drop consumed der), r.1)
      ]

  abbrev same_identity : Option X509 → Option X509 → Bool
  same_identity (some signing) (some encryption) =
      P.name_eq (P.get_subject_name signing) (P.get_subject_name encryption)
      && P.name_eq (P.get_issuer_name signing) (P.get_issuer_name encryption)
  same_identity (some signing) none = false
  same_identity none encryption = false

  -- The second half of the callback, for a signing certificate that was found valid.
  unfoldable pub check_encryption :
      Config → Option X509 → Option X509 → Outcome World → Outcome World
  check_encryption config signing encryption o =
      let root = decode_der_strict config.trust_anchor_der o.world in
      let e = hybrid_verify_encryption_certificate C P encryption root.0 root.1 in
      let identity : Bool = same_identity signing encryption in
      let dual : Bool = o.report.composite_ok && (e.0).certificate_valid && identity in
      record {
        result = if dual then valid else invalid;
        key_buffer = o.key_buffer;
        report = record (o.report) {
          encryption_certificate_ok = (e.0).certificate_valid;
          encryption_subject_spki_sm2_ok = (e.0).subject_public_key_sm2;
          encryption_oid_ok = (e.0).composite_oids_valid;
          encryption_pqc_marker_ok = (e.0).pqc_extension_present;
          encryption_dilithium_ok = (e.0).dilithium_valid;
          encryption_sm2_ok = (e.0).sm2_valid;
          encryption_composite_ok = (e.0).composite_valid;
          tlcp_dual_identity_ok = identity;
          tlcp_dual_certificate_ok = dual;
          encryption = e.0;
        };
        world = e.1;
      }

  -- What the callback does with a configuration.
  unfoldable pub verify_both : Config → Slice → KeyBuffer → World → Outcome World
  verify_both config chain_der buffer w =
      let (signing, signing_der, rest, w1) = first_certificate chain_der w in
      let second = decode_next_certificate rest w1 in
      let encryption : Option X509 = Option.map (λ r. r.0) second.0 in
      let o =
        tlcp_hybrid_cert_verify_der signing_der config.trust_anchor_der config.expected_hostname
          buffer second.1 in
      elim o.result [
        | valid ↦ check_encryption config signing encryption o
        | invalid ↦ o
        | not_applicable ↦ o
      ]

  -- The return value, the key buffer, `*config->last_report` and the world.
  unfoldable pub tlcp_hybrid_cert_gmssl_verify_callback :
      Slice → KeyBuffer → Option Config → World → Result × KeyBuffer × Out Report × World
  tlcp_hybrid_cert_gmssl_verify_callback chain_der buffer none w = (invalid, buffer, none, w)
  tlcp_hybrid_cert_gmssl_verify_callback chain_der buffer (some config) w =
      let o = verify_both config chain_der buffer w in
      (o.result, o.key_buffer, Option.map (λ _. o.report) config.last_report, o.world)
