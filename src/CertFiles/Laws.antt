-- ===== src/CertFiles/Laws.antt =====
-- The streams that writing and reading a certificate open are closed again.
use hybrid_pqc_cert.Prelude.{
  ℕ, ◌+◌, ◌-◌, ◌≡◌, refl, Option, none, some, Bytes, arith, is_some, if◌then◌else◌, Option-cases,
  inl, inr,
}
use hybrid_pqc_cert.Crypto.{Crypto}
use hybrid_pqc_cert.Pki.{Pki}
use hybrid_pqc_cert.Os.{Os}
use hybrid_pqc_cert.CertFiles.{CertIo, hybrid_x509_write_files, hybrid_x509_read_pem}

-- How many streams are open: `fopen` adds one where it succeeds, `fclose` takes one away, and the
-- functions that use a stream leave the number alone.
pub record CountsStreams (C : Crypto) (P : Pki C) (O : Os C) (F : CertIo C P O) : Type 0 where
  pub open_streams : C.World → ℕ
  pub fopen_write_adds :
      (p : Bytes) (w : C.World)
      → open_streams (F.fopen_write p w).1
        ≡ (if is_some (F.fopen_write p w).0 then 1 else 0) + open_streams w
  pub fopen_adds :
      (p : Bytes) (w : C.World)
      → open_streams (O.fopen p w).1 ≡ (if is_some (O.fopen p w).0 then 1 else 0) + open_streams w
  pub fclose_takes :
      (f : O.Stream) (w : C.World) → open_streams (O.fclose f w).1 ≡ open_streams w - 1
  pub pem_write_keeps :
      (f : O.Stream) (c : P.X509) (w : C.World)
      → open_streams (F.pem_write_x509 f c w).1 ≡ open_streams w
  pub i2d_keeps :
      (f : O.Stream) (c : P.X509) (w : C.World)
      → open_streams (F.i2d_x509_fp f c w).1 ≡ open_streams w
  pub pem_read_keeps :
      (f : O.Stream) (w : C.World) → open_streams (F.pem_read_x509 f w).1 ≡ open_streams w

module _ (C : Crypto) (P : Pki C) (O : Os C) (F : CertIo C P O) (n : CountsStreams C P O F) where
  -- After the writing of a certificate, and after the reading of one, as many streams are open as
  -- before, on success and on every failure.
  pub write_files_closes :
      (c : Option P.X509) (pem der : Option Bytes) (w : C.World)
      → n.open_streams (hybrid_x509_write_files C P O F c pem der w).1 ≡ n.open_streams w
  unfolding hybrid_x509_write_files
  write_files_closes none pem der w = refl
  write_files_closes (some c) none der w = refl
  write_files_closes (some c) (some p) none w = refl
  write_files_closes (some c) (some p) (some d) w =
      let first = F.fopen_write p w in
      let second = F.fopen_write d first.1 in
      elim (Option-cases first.0) [
        | inl e ↦ elim (Option-cases second.0) [
          | inl e' ↦ ground (arith, n.fopen_write_adds p w, n.fopen_write_adds d first.1)
          | inr (g, e') ↦ ground (
            arith,
            n.fopen_write_adds p w,
            n.fopen_write_adds d first.1,
            n.fclose_takes g second.1,
          )
        ]
        | inr (f, e) ↦ elim (Option-cases second.0) [
          | inl e' ↦ ground (
            arith,
            n.fopen_write_adds p w,
            n.fopen_write_adds d first.1,
            n.fclose_takes f second.1,
          )
          | inr (g, e') ↦
              let written = (F.pem_write_x509 f c second.1).1 in
              let both = (F.i2d_x509_fp g c written).1 in
              ground (
                arith,
                n.fopen_write_adds p w,
                n.fopen_write_adds d first.1,
                n.pem_write_keeps f c second.1,
                n.i2d_keeps g c written,
                n.fclose_takes f written,
                n.fclose_takes g (O.fclose f written).1,
                n.fclose_takes f both,
                n.fclose_takes g (O.fclose f both).1,
              )
        ]
      ]

  pub read_pem_closes :
      (path : Option Bytes) (w : C.World)
      → n.open_streams (hybrid_x509_read_pem C P O F path w).1 ≡ n.open_streams w
  unfolding hybrid_x509_read_pem
  read_pem_closes none w = refl
  read_pem_closes (some p) w = elim (Option-cases (O.fopen p w).0) [
    | inl e ↦ ground (arith, n.fopen_adds p w)
    | inr (f, e) ↦
        let w1 = (O.fopen p w).1 in
        ground (
          arith,
          n.fopen_adds p w,
          n.pem_read_keeps f w1,
          n.fclose_takes f (F.pem_read_x509 f w1).1,
        )
  ]
