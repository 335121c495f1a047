-- ===== src/Secret/Laws.antt =====
-- internal/secret/envelope.go: what is sealed can be opened, with its key and for its consumer.
use ovs_webui.Prelude.{
  ℕ, ◌≡◌, refl, sym, subst, Bool, true, false, not, ◌||◌, String, str_eq, eq_iff, List, Option, [],
  none, some, ltb, ◌==◌, if◌then◌else◌, length, arith,
}
use ovs_webui.Secret.{
  Associated, Envelope, Aead, Ring, key_of, maximum_bytes, is_bound, associated, seal, unseal,
  bounded, sealed_with, local_provider,
}

-- AES-GCM decrypts what it encrypted, under the same key, nonce and associated data.
abbrev pub Decrypts : Aead → Type 0
Decrypts a =
    (key nonce value : List ℕ) (bound : Associated)
    → a.decrypt key nonce (a.encrypt key nonce value bound) bound ≡ some value

-- What a sealing that went through has checked, and its envelope.
pub record Sealed (a : Aead) (r : Ring) (database partition id purpose : String)
    (value nonce : List ℕ) (e : Envelope) : Type 0 where
  pub bound : is_bound partition id purpose ≡ true
  pub small : ltb maximum_bytes (length value) ≡ false
  pub key : (length (key_of r r.active) == 32) ≡ true
  pub envelope :
      e
      ≡ sealed_with a (key_of r r.active) value database (record {
        format = 2;
        provider = local_provider;
        partition = partition;
        id = id;
        purpose = purpose;
        key_version = r.active;
        nonce = nonce;
        ciphertext = [];
      })

pub seal-Sealed :
    (a : Aead) (r : Ring) (database partition id purpose : String) (value nonce : List ℕ)
    (e : Envelope)
    → seal a r database partition id purpose value (some nonce) ≡ some e
    → Sealed a r database partition id purpose value nonce e
unfolding seal
seal-Sealed a r database partition id purpose value nonce e h = ground arith

str_eq_refl : (s : String) → str_eq s s ≡ true
str_eq_refl s = (eq_iff s s).1 refl

past : {A : Type 0} (c : Bool) (x y : Option A) → c ≡ false → x ≡ y → (if c then none else x) ≡ y
past true x y e h = cc
past false x y e h = h

small_enough :
    (o : Option (List ℕ)) (value : List ℕ)
    → o ≡ some value
    → ltb maximum_bytes (length value) ≡ false
    → bounded o ≡ some value
unfolding bounded
small_enough none value h small = cc
small_enough (some v) value h small = ground arith

all_pass :
    (fits format provider partition id purpose bound key nonce : Bool)
    → fits ≡ true
    → format ≡ true
    → provider ≡ true
    → partition ≡ true
    → id ≡ true
    → purpose ≡ true
    → bound ≡ true
    → key ≡ true
    → nonce ≡ true
    → (not fits
        || not format
        || not provider
        || not partition
        || not id
        || not purpose
        || not bound
        || not key
        || not nonce)
      ≡ false
all_pass fits format provider partition id purpose bound key nonce a b c d e f g h i = ground arith

module _ (a : Aead) (r r' : Ring) (database partition id purpose : String)
    (value nonce : List ℕ) where
  unseal-Sealed :
      (e : Envelope)
      → Decrypts a
      → Sealed a r database partition id purpose value nonce e
      → a.fits e ≡ true
      → length nonce ≡ 12
      → key_of r' r.active ≡ key_of r r.active
      → unseal a r' database partition id purpose e ≡ some value
  unfolding unseal sealed_with
  unseal-Sealed e law s fits n same =
      let long : (length (key_of r' r.active) == 32) ≡ true =
        subst (λ k. (length k == 32) ≡ true) (sym same) s.key in
      let bound = associated database (record {
        format = 2;
        provider = local_provider;
        partition = partition;
        id = id;
        purpose = purpose;
        key_version = r.active;
        nonce = nonce;
        ciphertext = [];
      }) in
      subst (λ z. unseal a r' database partition id purpose z ≡ some value) (sym s.envelope)
        (past _ _ (some value)
          (all_pass _ _ _ _ _ _ _ _ _ (subst (λ z. a.fits z ≡ true) s.envelope fits) refl refl
            (str_eq_refl partition) (str_eq_refl id) (str_eq_refl purpose) s.bound long
            (subst (λ k. (k == 12) ≡ true) (sym n) refl))
          (small_enough _ value
            (subst
              (λ k.
                a.decrypt k nonce (a.encrypt (key_of r r.active) nonce value bound) bound
                ≡ some value)
              (sym same) (law (key_of r r.active) nonce value bound))
            s.small))

  -- What was sealed is opened again for the same consumer, also by another ring, if that holds the
  -- key of the version under which it was sealed. (The envelope is not too long to be read, and the
  -- nonce has twelve bytes.)
  pub unseal-seal :
      (e : Envelope)
      → Decrypts a
      → seal a r database partition id purpose value (some nonce) ≡ some e
      → a.fits e ≡ true
      → length nonce ≡ 12
      → key_of r' r.active ≡ key_of r r.active
      → unseal a r' database partition id purpose e ≡ some value
  unseal-seal e law h fits n same =
      unseal-Sealed e law (seal-Sealed a r database partition id purpose value nonce e h) fits n
        same
