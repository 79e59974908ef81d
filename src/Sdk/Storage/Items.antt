-- ===== src/Sdk/Storage/Items.antt =====
-- Items that are written, read and removed.
use douyin_live.Prelude.{ℕ, ◌≡◌, refl, ◌∷◌, none, some, arith}
use douyin_live.Sdk.Text.{Text}
use douyin_live.Sdk.Storage.{
  Area, absent, blocked, open_area, Page, Web, read_cookie, read_item, write_cookie, write_local,
  write_item, remove_item, save, forget, load,
}

-- The browser's storages keep what is set and lose what is dropped.
pub record IsWeb {S J : Type 0} (web : Web S J) : Type 0 where
  pub get_set :
      (key value : Text) (s s' : S)
      → web.set_item key value s ≡ some s'
      → web.get_item key s' ≡ some value
  pub get_drop : (key : Text) (s : S) → web.get_item key (web.drop_item key s) ≡ none

module _ {S J : Type 0} (web : Web S J) where
  -- The storage is there and has room.
  abbrev pub Takes : Text → Text → Area S → Type 0
  Takes key value absent = ⊥
  Takes key value blocked = ⊥
  Takes key value (open_area s) = (s' : S) × (web.set_item key value s ≡ some s')

  -- The session's storage takes the value, or there is none and the local one does.
  abbrev pub Stores : Text → Text → Area S → Area S → Type 0
  Stores key value (open_area s) local = Takes key value (open_area s)
  Stores key value absent local = Takes key value local
  Stores key value blocked local = ⊥

  abbrev pub Reads : Area S → Type 0
  Reads blocked = ⊥
  Reads _ = Unit

  module _ (laws : IsWeb web) (key : Text) (jar : J) where
    read_session :
        (s : S) (c : ℕ) (value : Text) (page : Page S J)
        → page.session ≡ open_area s
        → web.get_item key s ≡ some (c ∷ value)
        → read_item web key page ≡ some (c ∷ value)
    unfolding read_item
    read_session s c value page p e = rw (p, read_item, e) refl

    -- What a write of the local storage leaves of the session.
    write_local-session :
        (value : Text) (page : Page S J) → (write_local web key value page).session ≡ page.session
    unfolding write_local
    write_local-session value page = ground arith

    -- A value that is not empty is read back after it is written, if the session's storage takes
    -- it, or there is none and the local one takes it.
    pub read_item-write_item :
        (session local : Area S) (c : ℕ) (value : Text)
        → Stores key (c ∷ value) session local
        → read_item web key (
            write_item web key (c ∷ value) (record { session = session; local = local; jar = jar }))
          ≡ some (c ∷ value)
    unfolding write_item
    read_item-write_item (open_area s) local c value (s', e) =
        rw (e, write_item)
          (read_session s' c value
            (write_local web key (c ∷ value)
              (record { session = open_area s'; local = local; jar = jar }))
            (write_local-session (c ∷ value)
              (record { session = open_area s'; local = local; jar = jar }))
            (laws.get_set key (c ∷ value) s s' e))
    read_item-write_item absent (open_area s) c value (s', e) =
        rw (e, write_local)
          (unfold read_item write_cookie in
            rw (laws.get_set key (c ∷ value) s s' e, read_item) refl)
    read_item-write_item absent absent c value h = absurd h
    read_item-write_item absent blocked c value h = absurd h
    read_item-write_item blocked local c value h = absurd h

    -- After an item is removed only a cookie can answer for it, if no storage is blocked.
    pub read_item-remove_item :
        (session local : Area S)
        → Reads session
        → Reads local
        → let page = remove_item web key (record { session = session; local = local; jar = jar }) in
          read_item web key page ≡ read_cookie web key page
    unfolding read_item remove_item
    read_item-remove_item absent absent h k = refl
    read_item-remove_item absent (open_area t) h k = rw (laws.get_drop key t, read_item) refl
    read_item-remove_item (open_area s) absent h k = rw (laws.get_drop key s, read_item) refl
    read_item-remove_item (open_area s) (open_area t) h k =
        rw (laws.get_drop key s, laws.get_drop key t, read_item) refl
    read_item-remove_item blocked local h k = absurd h
    read_item-remove_item absent blocked h k = absurd k
    read_item-remove_item (open_area s) blocked h k = absurd k

    -- A text that is saved in the local storage is loaded again, and one that is forgotten is not.
    pub load-save :
        (session local : Area S) (value : Text)
        → Takes key value local
        → let page = save web key value (record { session = session; local = local; jar = jar }) in
          (load web key page ≡ some value) × (load web key (forget web key page) ≡ none)
    unfolding load save forget
    load-save session absent value h = absurd h
    load-save session blocked value h = absurd h
    load-save session (open_area s) value (s', e) =
        rw (e, save) (laws.get_set key value s s' e, laws.get_drop key s')
