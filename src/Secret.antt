-- ===== src/Secret.antt =====
-- internal/secret/envelope.go: envelopes that are bound to their consumer. AES-GCM is the parameter
-- `Aead`; the JSON of an envelope is the envelope, and what says whether its blob is too long is
-- another parameter.
pub mod Laws
mod Examples
use Prim.Native.Char.{code as code_point}
use ovs_webui.Prelude.{
  ℕ, ◌*◌, Bool, true, false, not, ◌&&◌, ◌||◌, String, str_eq, List, [], ◌∷◌, Option, none, some,
  leb, ltb, ◌==◌, if◌then◌else◌, length, lookup, every,
}

-- What the ciphertext is bound to
pub record Associated : Type 0 where
  pub database : String
  pub format : ℕ
  pub provider : String
  pub partition : String
  pub id : String
  pub purpose : String
  pub key_version : ℕ

pub record Envelope : Type 0 where
  pub format : ℕ
  pub provider : String
  pub partition : String
  pub id : String
  pub purpose : String
  pub key_version : ℕ
  pub nonce : List ℕ
  pub ciphertext : List ℕ

pub record Aead : Type 0 where
  pub encrypt : List ℕ → List ℕ → List ℕ → Associated → List ℕ
  pub decrypt : List ℕ → List ℕ → List ℕ → Associated → Option (List ℕ)
  pub fits : Envelope → Bool

-- The keys of a ring, by version.
pub record Ring : Type 0 where
  pub active : ℕ
  pub keys : List (ℕ × List ℕ)

abbrev pub maximum_bytes : ℕ
maximum_bytes = 196608

abbrev pub local_provider : String
local_provider = "local-aes256gcm"

abbrev pub or_empty : Option (List ℕ) → List ℕ
or_empty none = []
or_empty (some k) = k

abbrev pub key_of : Ring → ℕ → List ℕ
key_of r version = or_empty (lookup version r.keys)

-- `NewRing`
abbrev is_key : ℕ × List ℕ → Bool
is_key (version, key) = leb 1 version && leb version 16 && length key == 32

unfoldable pub new_ring : ℕ → List (ℕ × List ℕ) → Option Ring
new_ring active keys =
    if leb 1 active
      && leb active 16
      && length (or_empty (lookup active keys)) == 32
      && leb (length keys) 16
      && every is_key keys
    then some (record { active = active; keys = keys })
    else none

is_token_character : ℕ → Bool
is_token_character c =
    (leb b'a' c && leb c b'z')
    || (leb b'A' c && leb c b'Z')
    || (leb b'0' c && leb c b'9')
    || c == b'_'
    || c == b'.'
    || c == b'-'

points : String → List ℕ
points String.[] = []
points (String.◌∷◌ c s) = code_point c ∷ points s

-- `token`: ^[a-zA-Z0-9_.-]{1,128}$
unfoldable pub token : String → Bool
unfolding is_token_character points
token s =
    let cs = points s in leb 1 (length cs) && leb (length cs) 128 && every is_token_character cs

-- `valid`
unfoldable pub is_bound : String → String → String → Bool
is_bound partition id purpose =
    (str_eq partition "webd-tls"
      || str_eq partition "webd-session"
      || str_eq partition "mgrd-privileged")
    && token id
    && token purpose

-- `associated`
abbrev pub associated : String → Envelope → Associated
associated database e = record {
  database = database;
  format = e.format;
  provider = e.provider;
  partition = e.partition;
  id = e.id;
  purpose = e.purpose;
  key_version = e.key_version;
}

pub bounded : Option (List ℕ) → Option (List ℕ)
bounded none = none
bounded (some v) = if ltb maximum_bytes (length v) then none else some v

abbrev pub drawn : (List ℕ → Envelope) → Option (List ℕ) → Option Envelope
drawn make none = none
drawn make (some nonce) = some (make nonce)

module _ (a : Aead) where
  unfoldable pub sealed_with : List ℕ → List ℕ → String → Envelope → Envelope
  sealed_with key value database e = record e {
    ciphertext = a.encrypt key e.nonce value (associated database e);
  }

  -- `Seal`; the nonce is what the random source gave, if it gave any.
  unfoldable pub seal :
      Ring
      → (database partition id purpose : String) → (value : List ℕ) → (nonce : Option (List ℕ))
      → Option Envelope
  unfolding sealed_with
  seal r database partition id purpose value nonce =
      if not (token database)
        || not (is_bound partition id purpose)
        || ltb maximum_bytes (length value)
        || not (length (key_of r r.active) == 32)
      then none
      else drawn
          (λ n. sealed_with (key_of r r.active) value database (record {
            format = 2;
            provider = local_provider;
            partition = partition;
            id = id;
            purpose = purpose;
            key_version = r.active;
            nonce = n;
            ciphertext = [];
          }))
          nonce

  -- `Open`
  unfoldable pub unseal :
      Ring → (database partition id purpose : String) → Envelope → Option (List ℕ)
  unfolding bounded
  unseal r database partition id purpose e =
      if not (a.fits e)
        || not (e.format == 2)
        || not (str_eq e.provider local_provider)
        || not (str_eq e.partition partition)
        || not (str_eq e.id id)
        || not (str_eq e.purpose purpose)
        || not (is_bound partition id purpose)
        || not (length (key_of r e.key_version) == 32)
        || not (length e.nonce == 12)
      then none
      else bounded (a.decrypt (key_of r e.key_version) e.nonce e.ciphertext (associated database e))
