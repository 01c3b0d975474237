-- ===== src/Lib.antt =====
-- nyquist, a Go implementation of the Noise Protocol Framework: a model of its handshakes and
-- theorems on the two parties that run it.
--
-- The program. A protocol names a handshake pattern, a DH function, a cipher and a hash. A pattern
-- (pattern/) is a list of messages of tokens; the package registers its tables, and the rules for a
-- pattern are those of IsValid. A HandshakeState (handshakestate.go) goes through the messages of its
-- pattern, one token after the other, with WriteMessage and ReadMessage; each token calls its
-- SymmetricState (symmetricstate.go), which keeps the chaining key and the transcript hash and
-- encrypts with its CipherState (cipherstate.go), a key with a 64-bit nonce. At the end of the
-- handshake the SymmetricState splits into the cipher states of the session.
--
-- The files.
--   Base, with its children: the shared names, tests, list lemmas, dictionaries (Entries), splitting
--     and joining strings (Splitting), the result type (a value, an error or a panic), strings as
--     lists of character codes, and Exec, a method that changes an object and may fail; what was
--     written before a failure stays written.
--   Pattern: pattern/pattern.go's types. Pattern.Validity: pattern/validity.go. Pattern.Psk:
--     pattern/psk.go, with what MakePSK accepts (Reads) and where it puts the tokens (Placed).
--     Pattern.OneWay, Pattern.Interactive, Pattern.Deferred: the tables of pattern/oneway.go,
--     pattern/interactive.go and pattern/deferred.go, named in lower case (in_pattern for IN).
--     Pattern.Registry: FromString, Register and init of pattern/pattern.go; Pattern.Registered: what
--     init leaves. Pattern.Rules: the rules of a pattern, stated on the tokens sent so far; its
--     children are about IsValid beside them and their consequences.
--   Crypto: common.go, and the interfaces of cipher/cipher.go, hash/hash.go and dh/dh.go as records
--     of operations, each with a record of the laws that their documentation promises.
--   Dh: dh/dh.go, with a Kind of key for the two halves of the file; its child X448 puts the second
--     half together, Laws compares both with the interface's laws, Supplies is
--     about keypairs that the package makes, and Registry is FromString and
--     Register. Ciphers: cipher/cipher.go, with its nonces in Nonces and the interface's laws in Laws.
--     Hashes: hash/hash.go, with its Laws.
--   Protocols: NewProtocol of handshakestate.go. Its child Names has the round trips with
--     Protocol.String, Registration the four registries over any calls of Register, and Standard and
--     Complete the protocols of the package's own parts and their handshakes.
--   CipherState and its children: cipherstate.go (set_key is setKey, initialize_key InitializeKey,
--     encrypt_with_ad EncryptWithAd, decrypt_with_ad DecryptWithAd, rekey Rekey).
--   SymmetricState and its children: symmetricstate.go, a function for each method.
--   HandshakeState: the types of handshakestate.go. HandshakeState.Tokens: the token handlers
--     (on_write_token_e is onWriteTokenE). HandshakeState.Messages: WriteMessage, ReadMessage, onDone
--     and Reset. HandshakeState.Start: NewHandshake and handlePreMessages.
--   HandshakeState.Sync: two HandshakeStates that run against each other. Its children go from a
--     call on both SymmetricStates (Calls) over the tokens (Steps, Keys, Ephemeral, Static) and the
--     loops over a message (Delivery) to the end of a handshake (Exchange), the parts of
--     WriteMessage (Message), ReadMessage of what it returned (Delivered) and the agreement of both
--     from message to message (Partners), which NewHandshake makes of fitting configurations (Prologue,
--     PreMessages, Begin, Begun); Turns has the calls out of turn.
--   HandshakeState.Ready: the configurations that NewHandshake takes. HandshakeState.Session: a whole
--     handshake, in which the parties call WriteMessage and ReadMessage in turns.
--     HandshakeState.Progress: what such a handshake needs so that no call fails, from the handlers of
--     the tokens (Mixing, Handlers, Tokens) over the loop and the whole of WriteMessage (Loop,
--     Writing) to a run of all messages (Needs, Running, Provided, Begin), with the sizes that
--     Pattern.Sizes reads off the pattern.
--     HandshakeState.Transport: the messages after it. HandshakeState.Whole: both together.
--     HandshakeState.Wiping: what is left of its secrets.
--   HandshakeState.Errors, with SymmetricState.Errorless and SymmetricState.Panics: which methods
--     return errors or panic, and the calls after an error.
--   Vectors: vectors/hexbuffer.go, with encoding/hex; its child Cases is vectors/vectors.go.
--   Tests: primitives of no security that keep the laws, and the theorems at concrete states.
--
-- Representation. Objects are records and a method returns the object beside its result; a nil
-- pointer is none, and a method call on it a panic. Bytes are lists of numbers. A nonce is a number
-- and wraps at 2^64. Appending to dst is list append, without Go's sharing of a slice's array. Loops
-- run over lists, so nothing needs fuel.
--
-- Parameters. The AEADs, the digests with HKDF, the scalar multiplications and the source of entropy
-- are third-party code: Ciphers, Hashes and Dh take them as records of operations. The handshake works
-- with any implementation of the three interfaces, and a theorem that needs their laws takes
-- CipherLaws (opening undoes sealing, sealing adds the overhead, 32 bytes are a key), HashLaws (the
-- lengths of digests and of HKDF's output) and DhLaws (keys survive serialization, both parties
-- calculate one secret). The theorems of the handshake also take a hash of 32 bytes or more. For the
-- package's own ciphers, hashes and DH functions, Dh.Laws derives DhLaws from CurveLaws
-- (sizes, and that the multiplications commute) and Fills (what io.ReadFull reads without an error
-- fills the buffer), Ciphers.Laws derives CipherLaws from AeadsLaws, and Hashes.Laws derives HashLaws
-- from DigestsLaws, which say what the packages document of AEADs, digests and HKDF. That a handshake
-- completes also takes DhSupplies (a keypair and a secret whenever one is asked for), which Dh.Supplies
-- derives from NeverFails, a source of entropy without errors.
--
-- Not modelled: a protocol with a nil member, for which Protocol.String returns a fixed text; a negative
-- NumPSKs, which the interface of a pattern allows and no pattern of the package has; the identity of
-- keypair objects, in place of which a keypair of a state has the mark from_config, set where the code
-- takes it from the configuration and not set where it generates it; the wiping of memory but for what
-- DropPrivate and Reset leave in an object; the JSON form of the test vectors, which is
-- encoding/json's; and the tests.
mod Base
pub mod Vectors
pub mod Tests
pub mod Pattern
pub mod Crypto
pub mod Dh
pub mod Ciphers
pub mod Hashes
pub mod Protocols
pub mod CipherState
pub mod SymmetricState
pub mod HandshakeState
