-- ===== src/Go/Ascii.antt =====
-- The platform over ASCII, for runs on concrete inputs. Codecs answer `none`, digests tag their
-- input, no text is a URL and none is an address but the loopback one.
use Prim.Native.Char.{Char, code}
use Prim.Native.String.{◌++◌ as cat}
use open_agentic_threat_defe.Go.Runtime.{Platform}
use open_agentic_threat_defe.Prelude.{
  Bool, String, if◌then◌else◌, leb, nat_eq, none, some, true, ℕ, ◌&&◌, ◌==◌, ◌||◌,
}

abbrev between : Char → ℕ → ℕ → Bool
between c lo hi = leb lo (code c) && leb (code c) hi

abbrev pub ascii : Platform
ascii = record {
  lower_char = λ c. c;
  is_space = λ c. nat_eq (code c) 32 || between c 9 13;
  is_letter = λ c. between c b'a' b'z' || between c b'A' b'Z';
  is_digit = λ c. between c b'0' b'9';
  is_print = λ c. between c 32 126;
  equal_fold = ◌==◌;
  quote = λ s. cat "'" (cat s "'");
  base64_std = λ s. none;
  base64_raw_std = λ s. none;
  base64_url = λ s. none;
  base64_raw_url = λ s. none;
  hex_decode = λ s. none;
  url_hostname = λ s. none;
  split_host = λ s. none;
  parse_ip_internal = λ s. if s == "127.0.0.1" then some true else none;
  sha256_hex = λ s. String.◌∷◌ "#" s;
  sha256_bytes = λ s. String.◌∷◌ "#" s;
  to_base64_raw_url = λ s. s;
  hmac_hex = λ k s. cat k (cat "#" s);
  hmac_bytes = λ k s. cat k (cat "#" s);
  rfc3339 = λ t. "time";
  rfc3339_nano = λ t. "time";
}
