-- ===== src/Witness/Setup.antt =====
-- A concrete `Crypto`, keys and addresses for the examples.
use open_rmbt_server.Common.{
  ℕ, zero, suc, ◌+◌, ◌-◌, ◌*◌, ◌/◌, ◌%◌, ◌≡◌, refl, ap, ◌≢◌, Option, none, some, [], ◌∷◌, arith,
  length, replicate, length-replicate, All,
}
use open_rmbt_server.Text.{Bytes, codes}
use open_rmbt_server.Address.{IpAddr, v4, IsByte}
use open_rmbt_server.Config.Defs.{SecretKey}
use open_rmbt_server.Crypto.{Crypto, CryptoLaws}
use open_rmbt_server.Text.Search.{Lacks}
use open_rmbt_server.Io.{Wire, raw}

sum : Bytes → ℕ
sum [] = 0
sum (x ∷ xs) = x + sum xs

unfoldable pub mac : ℕ → Bytes → Bytes → Bytes
unfolding sum
mac n key msg = replicate n ((3 * sum key + sum msg) % 256)

unfoldable pub encode : Bytes → Bytes
encode [] = []
encode (b ∷ s) = (65 + b / 16) ∷ (65 + b % 16) ∷ encode s

abbrev cons_byte : ℕ → Option Bytes → Option Bytes
cons_byte b none = none
cons_byte b (some s) = some (b ∷ s)

unfoldable pub decode : Bytes → Option Bytes
decode [] = some []
decode (x ∷ []) = none
decode (x ∷ y ∷ s) = cons_byte ((x - 65) * 16 + (y - 65)) (decode s)

abbrev pub c : Crypto
c = record {
  hmac_sha1 = mac 20;
  hmac_sha256 = mac 32;
  sha1 = mac 20 [];
  b64_encode = encode;
  b64_decode = decode;
}

All-replicate : (n b : ℕ) → IsByte b → All IsByte (replicate n b)
All-replicate zero b h = tt
All-replicate (suc n) b h = (h, All-replicate n b h)

mac-IsByte : (n : ℕ) (key msg : Bytes) → All IsByte (mac n key msg)
unfolding mac
mac-IsByte n key msg = All-replicate n _ (omega arith)

length-mac : (n : ℕ) (key msg : Bytes) → length (mac n key msg) ≡ n
unfolding mac
length-mac n key msg = length-replicate n _

decode-encode : (b : Bytes) → All IsByte b → decode (encode b) ≡ some b
unfolding encode decode
decode-encode [] h = refl
decode-encode (x ∷ xs) h = rw (decode-encode xs h.1) (ap (λ y. some (y ∷ xs)) (omega (arith, h.0)))

encode-Lacks : (b : Bytes) → Lacks b'#' (encode b)
unfolding encode
encode-Lacks [] = tt
encode-Lacks (x ∷ xs) = (omega arith, (omega arith, encode-Lacks xs))

pub laws : CryptoLaws c
laws = record {
  hmac_sha256_size = length-mac 32;
  hmac_sha256_bytes = mac-IsByte 32;
  decode-encode = decode-encode;
  encode-Lacks = encode-Lacks;
}

abbrev pub uuid : Bytes
uuid = replicate 36 b'a'

Lacks-replicate : (n x y : ℕ) → y ≢ x → Lacks x (replicate n y)
Lacks-replicate zero x y h = tt
Lacks-replicate (suc n) x y h = (h, Lacks-replicate n x y h)

pub uuid-Lacks : Lacks b'#' uuid
uuid-Lacks = Lacks-replicate 36 b'#' b'a' (omega arith)

abbrev pub key : SecretKey
key = record { key = codes "secret"; label = codes "prod" }

abbrev pub home : IpAddr
home = v4 10 0 0 7

abbrev pub away : IpAddr
away = v4 10 0 0 8

abbrev pub wire : Bytes → Wire
wire input = record {
  kind = raw;
  input = input;
  ending = none;
  frames = [];
  faults = [];
  sent = [];
  ticks = λ i. i * 1000;
  tick = 0;
  peer = some (record { ip = home; port = 5000 });
}
