-- ===== src/Session/Retention.antt =====
-- What an epoch change of the datagram transport leaves readable, and the numbers that it strands.
use quantum_go.Base.{
  ℕ, ◌+◌, ◌-◌, ◌%◌, ◌^◌, ◌≤◌, ◌<◌, ◌≡◌, refl, sym, ap, ==_refl, ◌∙◌, Bool, true, false, none, some,
  List, ltb, if◌then◌else◌, length, arith,
}
use quantum_go.Base.Go.{ok, err, authentication_failed, nonce_exhausted}
use quantum_go.Base.Bytes.{put_uint64}
use quantum_go.Crypto.{Primitives, IsLawful}
use quantum_go.Crypto.Aead.{Aead, seal_with_nonce}
use quantum_go.Crypto.Derivation.{derive_traffic_keys-length, new_aead_made}
use quantum_go.Crypto.Sealing.{open-seal_with_nonce}
use quantum_go.Handshake.{Role, initiator, responder}
use quantum_go.Session.{Session, EpochState, directed, build_aead_nonce}
use quantum_go.Session.Agreement.{IsUsable}
use quantum_go.Session.Delivery.{build_aead_nonce-length}
use quantum_go.Session.Records.{seal_record}
use quantum_go.Session.Rekeying.{derive_ciphers}
use quantum_go.Session.Epochs.{
  recv_cipher_of_prev, datagram_recv_cipher, rotate, seal_in_epoch, open_under, datagram_seal,
  datagram_open, adopt_epoch, advance_datagram_epoch,
}

rotate-previous :
    (t now : ℕ) (es : EpochState) (seq : ℕ) (ciphers : Aead × Aead)
    → es.cur.epoch < 256
    → datagram_recv_cipher now (some (rotate t es seq ciphers)) es.cur.epoch
      ≡ (if ltb now (t + 30_000_000_000) then some es.cur.recv_cipher else none)
unfolding datagram_recv_cipher recv_cipher_of_prev rotate
rotate-previous t now es seq ciphers h = ground arith

current :
    (now : ℕ) (es : EpochState)
    → datagram_recv_cipher now (some es) es.cur.epoch ≡ some es.cur.recv_cipher
unfolding datagram_recv_cipher
current now es = ground (arith, ==_refl es.cur.epoch)

next_epoch :
    (t : ℕ) (es : EpochState) (seq : ℕ) (ciphers : Aead × Aead)
    → ((rotate t es seq ciphers).cur.epoch + 1) % 256 ≡ (es.cur.epoch + 2) % 256
unfolding rotate
next_epoch t es seq ciphers = omega arith

rotate-twice :
    (t u now : ℕ) (es : EpochState) (seq seq' : ℕ) (ciphers ciphers' : Aead × Aead)
    → es.cur.epoch < 256
    → datagram_recv_cipher now
        (some (rotate u (rotate t es seq ciphers) seq' ciphers'))
        es.cur.epoch
      ≡ none
unfolding datagram_recv_cipher recv_cipher_of_prev rotate
rotate-twice t u now es seq seq' ciphers ciphers' h = ground arith

module _ (p : Primitives) where
  directed-length :
      (role : Role) (a b : List ℕ)
      → length a ≡ 32
      → length b ≡ 32
      → (length ((directed role (a, b)).0) ≡ 32) × (length ((directed role (a, b)).1) ≡ 32)
  unfolding directed
  directed-length initiator a b ha hb = (ha, hb)
  directed-length responder a b ha hb = (hb, ha)

  pub derive_ciphers_succeeds :
      (laws : IsLawful p) (role : Role) (suite : ℕ) (m : List ℕ)
      → IsUsable p suite
      → length m ≡ 32
      → (ciphers : Aead × Aead) × (derive_ciphers p role suite m ≡ ok ciphers)
  unfolding derive_ciphers
  derive_ciphers_succeeds laws role suite m usable h =
      let (ka, kb, ek, la, lb) = derive_traffic_keys-length p laws m h in
      let (ls, lr) = directed-length role ka kb la lb in
      let aead : List ℕ → Aead =
        λ key. record { suite = suite; key = key; counter = 0; max_seq = 2 ^ 28 } in
      (
        (aead ((directed role (ka, kb)).0), aead ((directed role (ka, kb)).1)),
        rw
            (
              ek,
              new_aead_made p suite ((directed role (ka, kb)).0) usable.approved usable.supported
                  ls,
              new_aead_made p suite ((directed role (ka, kb)).1) usable.approved usable.supported
                  lr,
            )
            refl,
      )

  module _ {K : Type 0} where
    pub advance_out :
        (now : ℕ) (s : Session K) (es : EpochState) (secret : List ℕ) (ciphers : Aead × Aead)
        → s.dgram_epochs ≡ some es
        → length secret ≡ 32
        → derive_ciphers p s.role s.cipher_suite secret ≡ ok ciphers
        → advance_datagram_epoch p now s secret
          ≡ (adopt_epoch p now s es secret ciphers, ok ((es.cur.epoch + 1) % 256))
    unfolding advance_datagram_epoch
    advance_out now s es secret ciphers he h hc = ground (arith, he, h, hc)

    opens :
        (now : ℕ) (s : Session K) (epoch seq : ℕ) (c aad : List ℕ)
        → (datagram_open p now s epoch seq c aad).1
          ≡ open_under p
              (datagram_recv_cipher now s.dgram_epochs epoch)
              s.recv_nonce_prefix
              seq
              c
              aad
    unfolding datagram_open
    opens now s epoch seq c aad = ground arith

    opens_if :
        (now : ℕ) (s : Session K) (es : EpochState) (live : Bool) (seq : ℕ) (c aad : List ℕ)
        → s.dgram_epochs ≡ some es
        → open_under p
            (if live then some es.cur.recv_cipher else none)
            s.recv_nonce_prefix
            seq
            c
            aad
          ≡ (if live
              then (datagram_open p now s es.cur.epoch seq c aad).1
              else err authentication_failed)
    unfolding open_under
    opens_if now s es false seq c aad he = refl
    opens_if now s es true seq c aad he = sym (
        opens now s es.cur.epoch seq c aad
        ∙ ap (λ o. open_under p o s.recv_nonce_prefix seq c aad)
            (ap (λ e. datagram_recv_cipher now e es.cur.epoch) he ∙ current now es))

    -- An epoch change, which always succeeds on an established datagram session with a new secret of 32
    -- bytes, leaves each packet of the old epoch readable as before for 30 seconds, and no longer; after a
    -- second change, no packet of that epoch is read.
    pub advance_datagram_epoch-retains :
        (laws : IsLawful p) (t u : ℕ) (s : Session K) (es : EpochState) (secret secret' : List ℕ)
        → s.dgram_epochs ≡ some es
        → es.cur.epoch < 256
        → IsUsable p s.cipher_suite
        → length secret ≡ 32
        → length secret' ≡ 32
        → (s' : Session K) × (s'' : Session K) × (advance_datagram_epoch p t s secret
            ≡ (s', ok ((es.cur.epoch + 1) % 256)))
          × (advance_datagram_epoch p u s' secret' ≡ (s'', ok ((es.cur.epoch + 2) % 256)))
          × ((now seq : ℕ) (c aad : List ℕ)
              → (datagram_open p now s' es.cur.epoch seq c aad).1 ≡ (
                  if ltb now (t + 30_000_000_000)
                  then (datagram_open p now s es.cur.epoch seq c aad).1
                  else err authentication_failed))
          × ((now seq : ℕ) (c aad : List ℕ)
              → (datagram_open p now s'' es.cur.epoch seq c aad).1 ≡ err authentication_failed)
    unfolding adopt_epoch open_under
    advance_datagram_epoch-retains laws t u s es secret secret' he small usable h h' =
        let (cs, ec) = derive_ciphers_succeeds laws s.role s.cipher_suite secret usable h in
        let (cs', ec') = derive_ciphers_succeeds laws s.role s.cipher_suite secret' usable h' in
        let s' = adopt_epoch p t s es secret cs in
        let es' = rotate t es s.send_seq cs in
        (
          s',
          adopt_epoch p u s' es' secret' cs',
          advance_out t s es secret cs he h ec,
          advance_out u s' es' secret' cs' refl h' ec'
              ∙ ap (λ e. (adopt_epoch p u s' es' secret' cs', ok e))
                  (next_epoch t es s.send_seq cs),
          λ now seq c aad.
              opens now s' es.cur.epoch seq c aad
              ∙ ap (λ o. open_under p o s.recv_nonce_prefix seq c aad)
                  (rotate-previous t now es s.send_seq cs small)
              ∙ opens_if now s es (ltb now (t + 30_000_000_000)) seq c aad he,
          λ now seq c aad.
              opens now (adopt_epoch p u s' es' secret' cs') es.cur.epoch seq c aad
              ∙ ap (λ o. open_under p o s.recv_nonce_prefix seq c aad)
                  (rotate-twice t u now es s.send_seq s.send_seq cs cs' small),
        )

    -- A number that was taken before an epoch change, and is sealed after it, is refused as if the new key
    -- were worn out, for starts that are not within 2^28 of wrapping; the stream's sealing, with the same
    -- cipher and numbers, accepts it.
    pub datagram_seal_strands :
        (now : ℕ) (s : Session K) (es : EpochState) (aad plaintext : List ℕ) (seq : ℕ)
        → s.dgram_epochs ≡ some es
        → seq < es.cur.start_seq
        → es.cur.start_seq + 2 ^ 28 ≤ seq + 2 ^ 64
        → (datagram_seal p now s aad seq plaintext ≡ (s, err nonce_exhausted))
          × ((c : List ℕ) × (seal_record p
                  (some es.cur.send_cipher)
                  s.send_nonce_prefix
                  es.cur.start_seq
                  seq
                  plaintext
                ≡ ok c))
    unfolding datagram_seal seal_in_epoch seal_record seal_with_nonce
    datagram_seal_strands now s es aad plaintext seq he below far = (
      ground (arith, he),
      (
        p.cipher_seal es.cur.send_cipher.suite es.cur.send_cipher.key
            (build_aead_nonce s.send_nonce_prefix seq) plaintext (put_uint64 seq),
        ground (arith, build_aead_nonce-length s.send_nonce_prefix seq),
      ),
    )

    -- What DatagramSeal seals in its epoch, under a 64-bit number of that epoch below the cap, DatagramOpen
    -- opens at an end that holds the epoch's key and the same nonce prefix.
    pub datagram_open-seal :
        (laws : IsLawful p) (now : ℕ) (a b : Session K) (es : EpochState) (y : Aead)
        (aad plaintext : List ℕ) (seq : ℕ)
        → a.dgram_epochs ≡ some es
        → datagram_recv_cipher now b.dgram_epochs es.cur.epoch ≡ some y
        → y.suite ≡ es.cur.send_cipher.suite
        → y.key ≡ es.cur.send_cipher.key
        → b.recv_nonce_prefix ≡ a.send_nonce_prefix
        → es.cur.start_seq ≤ seq
        → seq < 2 ^ 64
        → seq - es.cur.start_seq < 2 ^ 28
        → (c : List ℕ) × (datagram_seal p now a aad seq plaintext
            ≡ (record a { last_activity_nanos = now }, ok c))
          × (datagram_open p now b es.cur.epoch seq c aad
              ≡ (record b { last_activity_nanos = now }, ok plaintext))
    unfolding datagram_seal seal_in_epoch datagram_open open_under
    datagram_open-seal laws now a b es y aad plaintext seq ha hb hs hk hp le fits room =
        let nonce = build_aead_nonce a.send_nonce_prefix seq in
        let (c, sealed, opened) =
          open-seal_with_nonce p laws es.cur.send_cipher y nonce plaintext aad hs hk
            (build_aead_nonce-length a.send_nonce_prefix seq) in
        (c, ground (arith, ha, sealed), ground (arith, hb, hp, opened))
