-- ===== src/Lib.antt =====
-- A model of hybrid-pqc-cert: certificates and signatures that combine SM2 with Dilithium2, their
-- verification for TLCP, and ML-KEM-768.
--
-- The parts, from the bottom up. A definition has the name of the C function that it models; where a
-- C function has out parameters, a second definition with a shorter name is the work behind them
-- (`sign` of `composite_sign`, `parse_signature` of `composite_parse_signature`).
--
-- - Crypto: the functions of libcrypto and of the Dilithium2 reference implementation, fields of a
--   record that every definition takes. A call returns an Option and a new World, so it may fail
--   whenever it likes. Crypto/Laws: what the theorems on success assume of them.
-- - Dilithium, Sm2: src/dilithium_wrapper.c and src/sm2_wrapper.c.
-- - CompositeKey: src/composite_key.c. The references that the program holds to each EVP_PKEY are
--   part of the state.
-- - CompositeSig: src/composite_sig.c. It builds the composite message, signs it with both
--   algorithms and verifies both. CompositeSig/Der is about the strict DER test, /Message about the
--   message, /Format about the serialized signature, /Verify and /Complete about acceptance.
-- - HybridSign: src/hybrid_sign.c, which calls CompositeSig with the empty context.
-- - Pki: libcrypto's X.509 functions, a record like Crypto. X509: the part of src/hybrid_x509.c that
--   reads certificates.
-- - Asn1: libcrypto's names, extensions and encoders, a record like Pki, and the two structures of
--   src/hybrid_x509.c that are encoded. Issue: the part of that file that creates certificates.
--   Issue/Extensions has the extensions of each kind and Issue/Create the signed part and the
--   signing. Issue/Fields, /Signed and /Created are about the parts, /Issued about what a verifier
--   asks, /Listed and /Layouts about the extensions. Issue/Laws has the assumptions.
-- - Chain: src/hybrid_chain.c, which uses X509 and CompositeSig. Chain/Checks has the checks on
--   one certificate, Chain/Accepted the specification of a certificate in each role.
-- - Adapter: src/tlcp_hybrid_cert_adapter.c, which GmSSL calls with a chain in DER.
-- - Mlkem: src/mlkem.c over liboqs, which is a record of its own.
-- - Os: the file, PEM, PBKDF2 and AES-256-GCM calls, a record like Crypto. Os/Laws: a file system.
--   Os/Gcm: what each EVP call does to a context for AES-256-GCM.
-- - KeyFile: the encrypted file of the Dilithium2 key in src/hybrid_key_store.c, and the loops that
--   write and read it. KeyFile/Gcm: its two sequences of EVP calls; /Laws and
--   /Authentic: its round trip and its tag; /Loops: the loops. KeyStore: the directory with both keys in the same source. KeyStore/Save and
--   /Load have its operations, /Keeps, /SelfTest and /Files what they leave alone and create,
--   /Machine the specification of saving as a machine of three states and /Step the refinement,
--   /Working and /Succeeds saving where the calls of the system succeed, /Race two saves at once,
--   /Loading what a load leaves in the structures.
-- - CertFiles: the two functions of src/hybrid_x509.c that write and read certificate files.
-- - Prelude: bytes, pointers with lengths, calls that may fail, out parameters.
-- - Tests: concrete external functions and certificates, and the theorems at them.
--
-- State is passed explicitly: a call takes a World and returns one. A pointer with a length is a
-- Slice, NULL with a claimed length or bytes. An out parameter is NULL or a variable. `goto` to the
-- clean-up shows as the failure of a call; the clean-up itself is modelled where it changes what a
-- caller sees: the structures, the buffers, the references. size_t and long have 64 bits. Loops run
-- over lists; the search for an identifier counts its rounds down, from the number of places where
-- the identifier fits, and the writing and reading of a file from its length, since every round moves
-- a byte or stops. A file system is known by which paths are there, and its laws leave no room for
-- other programs. The program ignores the result of `unlink`, so a file that it removes may stay: the
-- theorems that need the removal say so. Two saves at once are an explicit sequence of their parts.
--
-- Not modelled: memory addresses and the freeing and cleansing of plain buffers; the names and
-- versions of algorithms and providers; the printing of reports; tools, tests, scripts and the
-- patches for GmSSL.

pub mod Prelude
pub mod Crypto
pub mod Dilithium
pub mod Sm2
pub mod CompositeKey
pub mod CompositeSig
pub mod HybridSign
pub mod Pki
pub mod Asn1
pub mod Issue
pub mod X509
pub mod Chain
pub mod Adapter
pub mod Mlkem
pub mod Os
pub mod KeyFile
pub mod KeyStore
pub mod CertFiles
pub mod Tests
