-- ===== src/Secret/Examples.antt =====
-- A sealing under a cipher that leaves the value as it is.
use ovs_webui.Prelude.{ℕ, ◌≡◌, refl, true, List, [], ◌∷◌, some}
use ovs_webui.Secret.{
  Envelope, Aead, Ring, seal, unseal, token, is_bound, sealed_with, is_token_character, points,
}
use ovs_webui.Secret.Laws.{unseal-seal}

abbrev plain : Aead
plain = record {
  encrypt = λ key nonce value bound. value;
  decrypt = λ key nonce ciphertext bound. some ciphertext;
  fits = λ e. true;
}

abbrev four : List ℕ
four = 1 ∷ 2 ∷ 3 ∷ 4 ∷ []

abbrev twelve : List ℕ
twelve = 1 ∷ 2 ∷ 3 ∷ 4 ∷ 5 ∷ 6 ∷ 7 ∷ 8 ∷ 9 ∷ 10 ∷ 11 ∷ 12 ∷ []

abbrev key : List ℕ
key =
    1 ∷ 2 ∷ 3 ∷ 4 ∷ 5 ∷ 6 ∷ 7 ∷ 8 ∷ 1 ∷ 2 ∷ 3 ∷ 4 ∷ 5 ∷ 6 ∷ 7 ∷ 8 ∷ 1 ∷ 2 ∷ 3 ∷ 4 ∷ 5 ∷ 6 ∷ 7 ∷ 8
    ∷ 1 ∷ 2 ∷ 3 ∷ 4 ∷ 5 ∷ 6 ∷ 7 ∷ 8 ∷ []

abbrev old_ring : Ring
old_ring = record { active = 1; keys = (1, key) ∷ [] }

abbrev rotated_ring : Ring
rotated_ring = record { active = 2; keys = (2, key) ∷ (1, key) ∷ [] }

abbrev envelope : Envelope
envelope = record {
  format = 2;
  provider = "local-aes256gcm";
  partition = "webd-session";
  id = "s1";
  purpose = "session";
  key_version = 1;
  nonce = twelve;
  ciphertext = four;
}

unseal-seal_example :
    unseal plain rotated_ring "db" "webd-session" "s1" "session" envelope ≡ some four
unfolding seal sealed_with token is_bound is_token_character points
unseal-seal_example =
    unseal-seal plain old_ring rotated_ring "db" "webd-session" "s1" "session" four twelve envelope
      (λ k n v b. refl) refl refl refl refl
