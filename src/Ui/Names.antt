-- ===== src/Ui/Names.antt =====
-- codebase/slint-ui/src/ui_service/profile.rs: that a contact is added only with its
-- fingerprint, and is then trusted and saved.
use safechat.Prelude.{◌≡◌, refl, sym, ap, subst, ◌++◌, Bool, true, false, not, ok}
use safechat.Prelude.Bytes.{Bytes, bytes_eq_iff, codes}
use safechat.Prelude.Text.{trim, component}
use safechat.Prelude.Programs.Returns.{Returns, returns, pure-ok, lift-ok, bind-ok, raise_if-ok}
use safechat.Transport.{decode_bundle}
use safechat.Ui.Profile.{
  ProfileHost, normalize, profile_directory, peer_bundle_from_encoded, trust_and_save,
  verify_add_contact,
}

not-false : {b : Bool} → not b ≡ false → b ≡ true
not-false {b = true} h = refl
not-false {b = false} h = cc

module _ {F S B J : Type 0} (host : ProfileHost F S B J) where
  -- The bundle that a text decodes to.
  abbrev pub IsBundleOf : Bytes → B → Type 0
  IsBundleOf encoded bundle =
      (bytes : Bytes) × (decode_bundle host.base64 (trim encoded) ≡ ok bytes)
      × (host.decode_signal_bundle bytes ≡ ok bundle)

  -- The state of the profile is opened, the bundle is trusted in it, and its text is written below
  -- the profile's directory under the name that the bundle's address gives; nothing comes between
  -- or after.
  abbrev pub IsTrusted : Bytes → Bytes → Bytes → B → F → F → Type 0
  IsTrusted directory password encoded bundle f g =
      let peers = host.join directory (codes "peers") in
      let filename = component (λ _. false) (host.address bundle) ++ codes ".bundle" in
      (state : S) × (f1 : F) × (f2 : F) × (f3 : F) × Returns
        (host.open_state (host.join directory (codes "identity.db")) password) f state f1
      × Returns (host.trust_bundle state bundle) f1 tt f2
      × Returns (host.create_dir_all peers) f2 tt f3
      × Returns (host.write (host.join peers filename) (trim encoded)) f3 tt g

  decoded-IsBundleOf :
      (encoded : Bytes) (bundle : B) (f g : F)
      → Returns (peer_bundle_from_encoded host encoded) f bundle g
      → IsBundleOf encoded bundle × (f ≡ g)
  unfolding peer_bundle_from_encoded
  decoded-IsBundleOf encoded bundle f g e =
      lift-ok _ e λ bytes read e1. ((bytes, read, ap (λ p. p.0) e1), ap (λ p. p.1) e1)

  saved-IsTrusted :
      (directory password encoded : Bytes) (bundle : B) (f g : F) (result : Bytes × Bytes)
      → Returns (trust_and_save host directory password encoded bundle) f result g
      → IsTrusted directory password encoded bundle f g
  unfolding trust_and_save
  saved-IsTrusted directory password encoded bundle f g result e =
      let peers = host.join directory (codes "peers") in
      let filename = component (λ _. false) (host.address bundle) ++ codes ".bundle" in
      let database = host.join directory (codes "identity.db") in
      bind-ok _ (host.open_state database password) e λ state opened e1.
        bind-ok _ (host.trust_bundle state bundle) e1 λ u1 trusted e2.
          bind-ok _ (host.create_dir_all peers) e2 λ u2 created e3.
            bind-ok _ (host.write (host.join peers filename) (trim encoded)) e3 λ u3 written e4. (
              state,
              _,
              _,
              _,
              returns (host.open_state database password) f state opened,
              returns (host.trust_bundle state bundle) _ tt trusted,
              returns (host.create_dir_all peers) _ tt created,
              subst (Returns (host.write (host.join peers filename) (trim encoded)) _ tt)
                  (pure-ok _ _ _ _ e4).1
                  (returns (host.write (host.join peers filename) (trim encoded)) _ tt written),
            )

  -- When a contact is added, its text decodes to a bundle whose identity key has the fingerprint
  -- that was expected, but for separators and letter case; and in the state that the profile's
  -- directory was found in, it is this bundle that is trusted and whose text is written, last.
  pub verify_add_contact-Verified :
      (profile password encoded expected : Bytes) (f : F) (result : Bytes × Bytes)
      → (verify_add_contact host profile password encoded expected f).0 ≡ ok result
      → (bundle : B) × (fingerprint : Bytes) × (directory : Bytes) × ((profile_directory host
            profile f).0
          ≡ ok directory)
        × IsBundleOf encoded bundle
        × (host.identity_fingerprint bundle ≡ ok fingerprint)
        × (normalize host expected ≡ normalize host fingerprint)
        × IsTrusted directory password encoded bundle
            (profile_directory host profile f).1
            (verify_add_contact host profile password encoded expected f).1
  unfolding verify_add_contact
  verify_add_contact-Verified profile password encoded expected f result e =
      let start = returns (verify_add_contact host profile password encoded expected) f result e in
      bind-ok _ (profile_directory host profile) start λ directory made e1.
        bind-ok _ (peer_bundle_from_encoded host encoded) e1 λ bundle decoded e2.
          lift-ok _ e2 λ fingerprint found e3. raise_if-ok _ _ e3 λ same e4.
            let (is_bundle, still) =
              decoded-IsBundleOf encoded bundle _ _
                (returns (peer_bundle_from_encoded host encoded) _ bundle decoded) in
            (
              bundle,
              fingerprint,
              directory,
              made,
              is_bundle,
              found,
              (bytes_eq_iff _ _).0 (not-false same),
              subst
                  (λ h.
                    IsTrusted directory password encoded bundle h
                      (verify_add_contact host profile password encoded expected f).1)
                  (sym still) (saved-IsTrusted directory password encoded bundle _ _ result e4),
            )
