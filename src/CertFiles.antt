-- ===== src/CertFiles.antt =====
-- src/hybrid_x509.c, the last two functions: a certificate is written to two files and read from
-- one.
pub mod Laws
use hybrid_pqc_cert.Prelude.{Option, none, some, Bytes, Prog, ◌>>=◌, ◌>>◌, from_option, attempt}
use hybrid_pqc_cert.Crypto.{Crypto}
use hybrid_pqc_cert.Pki.{Pki}
use hybrid_pqc_cert.Os.{Os}
use hybrid_pqc_cert.KeyStore.{finally}

-- Code that the program calls and does not contain.
pub record CertIo (C : Crypto) (P : Pki C) (O : Os C) : Type 0 where
  -- `fopen(path, "wb")`
  pub fopen_write : Bytes → Prog C.World O.Stream
  -- PEM_write_X509, i2d_X509_fp and PEM_read_X509.
  pub pem_write_x509 : O.Stream → P.X509 → Prog C.World (Unit {0})
  pub i2d_x509_fp : O.Stream → P.X509 → Prog C.World (Unit {0})
  pub pem_read_x509 : O.Stream → Prog C.World P.X509

module _ (C : Crypto) (P : Pki C) (O : Os C) (F : CertIo C P O) where
  open C use {World}
  open P use {X509}

  -- `fclose` of a stream that is there. Its result is not looked at.
  abbrev pub close_stream : Option O.Stream → World → World
  close_stream none w = w
  close_stream (some stream) w = (O.fclose stream w).1

  -- Both files are opened before one is looked at.
  unfoldable pub hybrid_x509_write_files :
      Option X509 → Option Bytes → Option Bytes → Prog World (Unit {0})
  hybrid_x509_write_files certificate pem_path der_path = do
    c ← from_option certificate
    p ← from_option pem_path
    d ← from_option der_path
    pem ← attempt (F.fopen_write p)
    der ← attempt (F.fopen_write d)
    finally
        (do
          pem_file ← from_option pem
          der_file ← from_option der
          F.pem_write_x509 pem_file c
          F.i2d_x509_fp der_file c)
        (λ w. close_stream der (close_stream pem w))

  unfoldable pub hybrid_x509_read_pem : Option Bytes → Prog World X509
  hybrid_x509_read_pem path = do
    p ← from_option path
    input ← O.fopen p
    finally (F.pem_read_x509 input) (λ w. (O.fclose input w).1)
