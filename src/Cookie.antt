-- ===== src/Cookie.antt =====
-- pkg/tunnel/dgram_cookie.go: the return-routability cookies. The keyed hash is a parameter: the
-- MAC of a source address and a timestamp under the endpoint's secret. The clock is read in
-- nanoseconds since 1970.
pub mod Laws
mod Tests
use quantum_go.Base.{
  ℕ, ◌+◌, ◌-◌, ◌%◌, ◌^◌, Bool, true, false, not, ◌&&◌, List, [], ◌∷◌, ◌++◌, ltb, leb, ◌==◌,
  if◌then◌else◌, length, take, drop,
}
use quantum_go.Base.Go.{Result, ok, err, panic, ◌>>=◌, uint64_at}
use quantum_go.Base.Bytes.{put_uint64}
use quantum_go.Handshake.Machine.{bytes_equal}

-- `cookieTimestampSize`, `cookieMACSize`, `cookieSize`, `cookieLifetime`
abbrev pub cookie_timestamp_size : ℕ
cookie_timestamp_size = 8

abbrev pub cookie_mac_size : ℕ
cookie_mac_size = 32

abbrev pub cookie_size : ℕ
cookie_size = cookie_timestamp_size + cookie_mac_size

abbrev pub cookie_lifetime : ℕ
cookie_lifetime = 10_000_000_000

module _ (mac : List ℕ → List ℕ → List ℕ) where
  -- `issue`: the MAC is copied into the 32 bytes behind the timestamp.
  unfoldable pub issue : ℕ → List ℕ → List ℕ
  issue now addr =
      let stamp = put_uint64 (now % 2 ^ 64) in stamp ++ take cookie_mac_size (mac addr stamp)

  -- `verify`; a timestamp of 2^63 or more is negative as an int64, so its age is above every
  -- lifetime, as it is for the clock readings of this era.
  unfoldable pub verify : ℕ → List ℕ → List ℕ → Result Bool
  verify now addr cookie =
      if not (length cookie == cookie_size)
      then ok false
      else if not (
          bytes_equal (drop cookie_timestamp_size cookie)
            (mac addr (take cookie_timestamp_size cookie)))
      then ok false
      else (do
        issued ← uint64_at (take cookie_timestamp_size cookie) 0
        ok (ltb issued (2 ^ 63) && leb issued now && leb (now - issued) cookie_lifetime))
