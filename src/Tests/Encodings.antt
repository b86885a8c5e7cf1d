-- ===== src/Tests/Encodings.antt =====
-- A client that prefers brotli, in quarters of a quality.
use flow_proxy.Prelude.{◌≡◌, refl, true, none, some, Text, codes, text_eq, if◌then◌else◌, pos}
use flow_proxy.Pipeline.Compression.{
  Qualities, nan, number, CompressionPolicy, uncompressed, brotli, negotiate,
}
use flow_proxy.Pipeline.Ranking.{ranked}
use flow_proxy.Pipeline.Negotiated.{offered, negotiate-qualities}

abbrev quarters : Qualities
quarters = record {
  parse_float = λ s.
      if text_eq s (codes "0.5")
      then some (number (pos 2))
      else if text_eq s (codes "0")
      then some (number (pos 0))
      else if text_eq s (codes "nan")
      then some nan
      else none;
  one = 4;
}

abbrev both : CompressionPolicy
both = record { gzip_enabled = true; brotli_enabled = true }

abbrev header : Text
header = codes "gzip;q=0.5, *;q=0, br"

negotiate_brotli : negotiate quarters both header ≡ brotli
unfolding negotiate
negotiate_brotli = refl

negotiate_refused : negotiate quarters both (codes "gzip;q=0, br;q=0") ≡ uncompressed
unfolding negotiate
negotiate_refused = refl

negotiate_nan : negotiate quarters both (codes "br;q=nan, br") ≡ uncompressed
unfolding negotiate
negotiate_nan = refl

negotiate-qualities_example :
    negotiate quarters both header
    ≡ ranked
        (offered quarters both.gzip_enabled header (codes "gzip"))
        (offered quarters both.brotli_enabled header (codes "br"))
negotiate-qualities_example = negotiate-qualities quarters both header
