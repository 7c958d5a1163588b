-- ===== src/Go/Runtime.antt =====
-- The parts of Go's runtime that the program calls and whose code is not in the repository: the
-- Unicode tables, codecs, digests, URL and address parsing, and printing of times. Each is a
-- function of its input.
use Prim.Native.Char.{Char}
use open_agentic_threat_defe.Prelude.{Bool, Option, String, ℕ}

pub record Platform : Type 0 where
  -- unicode.ToLower, unicode.IsSpace, unicode.IsLetter, unicode.IsDigit, unicode.IsPrint
  pub lower_char : Char → Char
  pub is_space : Char → Bool
  pub is_letter : Char → Bool
  pub is_digit : Char → Bool
  pub is_print : Char → Bool
  -- strings.EqualFold
  pub equal_fold : String → String → Bool
  -- strconv.Quote, as %q prints
  pub quote : String → String
  -- base64's StdEncoding, RawStdEncoding, URLEncoding and RawURLEncoding, each followed by string()
  pub base64_std : String → Option String
  pub base64_raw_std : String → Option String
  pub base64_url : String → Option String
  pub base64_raw_url : String → Option String
  -- hex.DecodeString followed by string()
  pub hex_decode : String → Option String
  -- the Hostname() of url.Parse, `none` where it fails
  pub url_hostname : String → Option String
  -- the host of net.SplitHostPort
  pub split_host : String → Option String
  -- net.ParseIP: `some b` for an address, where `b` is IsLoopback, IsPrivate, IsLinkLocalUnicast
  -- or IsLinkLocalMulticast
  pub parse_ip_internal : String → Option Bool
  -- hex.EncodeToString of sha256.Sum256
  pub sha256_hex : String → String
  -- hex.EncodeToString of HMAC-SHA256 of a text under a key
  pub hmac_hex : String → String → String
  -- the same, as bytes
  pub hmac_bytes : String → String → String
  -- time.Time.Format(time.RFC3339), and with RFC3339Nano
  pub rfc3339 : ℕ → String
  pub rfc3339_nano : ℕ → String
  -- sha256.Sum256, as bytes
  pub sha256_bytes : String → String
  -- base64.RawURLEncoding.EncodeToString
  pub to_base64_raw_url : String → String
