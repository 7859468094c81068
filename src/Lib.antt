-- ===== src/Lib.antt =====
-- The native methods of the Velo blockchain library for Java, the C code of
-- vjblockchain-native/src/main/native.
--
-- Each native method is one C function. It tests its arguments, makes a series of calls into the
-- JVM and into the crypto suite (vccrypt), each of which may fail, and leaves through a chain of
-- cleanup labels that give back what was acquired. Its result is `retval`, and on a failure a
-- pending Java exception. Jni models this run time, and every method is written in it:
--
--   * a `World` counts the fallible calls made so far and records what is held, the pending
--     exception and `retval`;
--   * a statement is a `Body`: it falls through with a value, jumps to a label, or has undefined
--     behaviour (a null reference, an access outside an object, the disposal of what is not held);
--   * `attempt` and `acquire` are fallible calls, whose outcome the schedule `calls` of the suite
--     decides, `unchecked` a call whose failure nothing tests, and `test` on the schedule `makes` the
--     call that makes an object which is returned with no test; `guard`, `non_null` and `verify_initialized` are the tests of the code;
--   * `run` is a whole method: the initial `retval`, the body, and the cleanup statements from the
--     label on that it leaves by.
--
-- Jni/Point has the judgement `Passes` on a statement (what is held before and after, and that each
-- jump reaches a label that cleans up what is held, less the resources that the method may leave
-- for ever, with an exception pending) and `Steps`, where a jump leaves nothing; Jni/Rules has one
-- rule for each statement, and Jni/Completes what follows for a whole method. The reasons for a
-- refusal are a data type of each method (Refusal); `Refused` joins them with the failure of the
-- last call that the method made.
--
-- Suite has what the methods use of vccrypt, the JVM and the C library, as the parameters of every
-- definition, and as the record `IsSuite` what they rely on: the sizes of buffers and of
-- authentication codes, that decryption undoes encryption, that two pairs of keys that the suite
-- creates agree on one secret, and that a signature with a created key is accepted. For keys from
-- elsewhere such an agreement is a hypothesis where it is used. Suite/Stream is the stream cipher over arrays of bytes.
--
-- The parts, with their files under com/velopayments/blockchain:
--
--   * Agentd/Writer: agentd/OuterEnvelopeWriter_encryptPayloadNative.c (`encryptPayloadNative` is
--     `encrypt_payload`);
--   * Agentd/Header: agentd/OuterEnvelopeReader_decryptHeaderNative.c (`decryptHeaderNative` is
--     `decrypt_header`);
--   * Agentd/Payload: agentd/OuterEnvelopeReader_decryptPayloadNative.c (`decryptPayloadNative` is
--     `decrypt_payload`);
--   * Agentd/SharedSecret: agentd/ProtocolHandlerImpl_computeSharedSecretNative.c
--     (`computeSharedSecretNative` is `compute_shared_secret`);
--   * SimpleCipher/Encrypt: crypt/SimpleStreamCipher_encryptNative.c (`encryptNative` is `encrypt`);
--   * SimpleCipher/Decrypt: crypt/SimpleStreamCipher_decryptNative.c (`decryptNative` is `decrypt`);
--   * Documents/Generate: document/EncryptedDocumentBuilder_generateEncryptionKey.c
--     (`generateEncryptionKey` is `generate_key`);
--   * Documents/Wrap: document/EncryptedDocumentBuilder_encryptKey.c (`encryptKey` is `wrap_key`);
--   * Documents/Unwrap: document/EncryptedDocumentReader_decryptKey.c (`decryptKey` is
--     `unwrap_key`);
--   * Streams/Encrypt: crypt/GenericStreamCipher_encryptNative.c (`encryptNative` is
--     `encrypt_generic`), cert/EncryptedCertificateBuilder_encryptData.c (`encryptData` is
--     `encrypt_certificate`) and document/EncryptedDocumentBuilder_encryptData.c (`encryptData` is
--     `encrypt_data`);
--   * Streams/Decrypt: crypt/GenericStreamCipher_decryptNative.c (`decryptNative` is
--     `decrypt_generic`), cert/EncryptedCertificateReader_decryptNative.c (`decryptNative` is
--     `decrypt_certificate`) and document/EncryptedDocumentReader_decryptData.c (`decryptData` is
--     `decrypt_data`);
--   * Hmac: crypt/HMAC_digestArrNative.c (`digestArrNative` is `digest_arr`) and
--     crypt/HMAC_digestNative.c (`digestNative` is `digest`);
--   * Keys: crypt/Key_createRandomNative.c (`createRandomNative` is `create_random`) and
--     crypt/Key_verifyKeySizeNative.c (`verifyKeySizeNative` is `verify_key_size`); Keys/Password:
--     crypt/Key_createFromPasswordNative.c (`createFromPasswordNative` is `create_from_password`);
--   * KeyPairs/Encryption: crypt/EncryptionKeyPair_generateNative.c (`generateNative` is
--     `generate_encryption`); KeyPairs/Signing: crypt/SigningKeyPair_generateNative.c
--     (`generateNative` is `generate_signing`);
--   * CertificateBuilder: cert/CertificateBuilder_emit.c (`emit`) and
--     cert/CertificateBuilder_signNative.c (`signNative` is `sign_certificate`), with what they use of
--     vccert as the parameters `Vccert`;
--   * Signing: crypt/SigningPrivateKey_signNative.c (`signNative` is `sign`);
--   * Verify: crypt/SigningPublicKey_verifyNative.c (`verifyNative` is `verify_signature`).
--
-- Uuid is util/uuid_conv.c of the native directory (`uuidFromBytes` is `uuid_from_bytes`,
-- `uuidToBytes` is `uuid_to_bytes`), and Base/Bits its bit operations as arithmetic.
--
-- Classes is what the `_register` functions do, the same sequence of calls of the JVM for each class
-- (`find`, `make_global`, `delete_local_ref`, then `look_up` for each member), and its children
-- Lang, Util, Lists, Maps, Cert, Crypt and Keys the 33 classes: what each header declares (`..._vars`)
-- and what each function looks up (`..._class`; the function X_register is `register` on it). They are
-- in java/lang, java/util and com/velopayments/blockchain. Init is
-- com/velopayments/blockchain/init/Initializer_blockchainInit.c, Init/Layout the struct of the native
-- instance in init/init.h. What the JVM answers to each call is a parameter.
--
-- Agentd/Envelope, SimpleCipher/Envelope, Documents/Envelope and Streams/Envelope describe what is on the wire with
-- no reference to the code. A method is cut into phases, one definition each, in the order of the
-- source. The modules Complete say how each method ends, in every case, and Phases what each phase
-- does; Layout and Opens are the lemmas on the bytes; RoundTrip puts writer and reader together.
-- Examples has a suite with concrete ciphers.
--
-- A byte is a natural number, an array a list of bytes, a Java reference that may be null an
-- `Option`. Sizes are natural numbers without a bound: the subtractions of the source stand behind
-- the tests that make them exact. The sizes of certificates
-- are signed integers of 32 bits, whose overflow is undefined. The loops over messages and over fields
-- are recursion on their lists; there is no other loop, hence no fuel.
--
-- Where the comments of the repository and the code differ, the development says what the code does. The
-- authentication code of the simple stream cipher is keyed with the random session key, where
-- crypt/SimpleStreamCipher.java says the input key; the data and the keys of documents and of
-- certificates and the data of the generic stream cipher carry no authentication code, and none is
-- verified, where the comments of these files speak of one; and the initialisation vector stands in
-- front of the first piece of a document only.
--
-- Not modelled: that Java code may change an array while a method runs, the contents of buffers
-- after disposal, exceptions that the JVM itself raises, and the parsing and attestation of
-- certificates. Every method reports a null instance
-- through that instance; the model gives that branch no defined behaviour. The other native methods,
-- and the Java classes are outside this development.
pub mod Base
pub mod Jni
pub mod Suite
pub mod Agentd
pub mod SimpleCipher
pub mod Documents
pub mod Signing
pub mod Verify
pub mod Uuid
pub mod Streams
pub mod Hmac
pub mod KeyPairs
pub mod Keys
pub mod CertificateBuilder
pub mod Classes
pub mod Init
pub mod Examples
