-- ===== src/MediaCache/Overlap.antt =====
-- Calls of `Get` and `Put` of internal/bridge/mediacache.go that overlap. `Put` holds the lock only
-- from its look-up of the old entry on: before that, it writes, measures and renames its file while
-- other calls go on.
use tg_bridge.Prelude.{ℕ, ◌≡◌, Bool, List, [], ◌∷◌, ◌++◌, Str}
use tg_bridge.MediaCache.{Cache, cache_key, get, install}
use tg_bridge.MediaCache.Names.{ext_from_mime}

-- Where a call of `Put` stands: at work on its file, or behind the rename, with the size that
-- `os.Stat` has given.
pub data Phase : Type 0 where
  at_file : Phase
  renamed : ℕ → Phase

pub record Job : Type 0 where
  pub media_id : Str
  pub mime : Str
  pub phase : Phase

pub record World : Type 0 where
  pub cache : Cache
  pub jobs : List Job

module _ (sha256 : Str → Str) (removable : Str → Bool) where
  -- `Put` under the lock.
  unfoldable pub lock_and_install : Job → ℕ → Cache → Cache
  lock_and_install j n c =
      let key = cache_key sha256 removable j.media_id in
      install sha256 removable
        (record { key = key; filename = key ++ ext_from_mime j.mime; size = n; mime = j.mime }) c

  -- One step of one of the calls, in any order. What the calls do to the files before the lock may
  -- meet in many ways, so it is left open: at any time the files may change in any way, and the
  -- size that a call finds is any number.
  pub data Step (w : World) : World → Type 0 where
    begins :
        (media_id mime : Str)
        → Step w (record w {
          jobs = record { media_id = media_id; mime = mime; phase = at_file } ∷ w.jobs;
        })
    changes :
        (files : List (Str × ℕ)) → Step w (record w { cache = record w.cache { files = files } })
    renames :
        (before after : List Job) (media_id mime : Str) (n : ℕ)
        → w.jobs ≡ before ++ record { media_id = media_id; mime = mime; phase = at_file } ∷ after
        → Step w (record w {
          jobs = before ++ record { media_id = media_id; mime = mime; phase = renamed n } ∷ after;
        })
    fails :
        (before after : List Job) (media_id mime : Str)
        → w.jobs ≡ before ++ record { media_id = media_id; mime = mime; phase = at_file } ∷ after
        → Step w (record w { jobs = before ++ after })
    installs :
        (before after : List Job) (j : Job) (n : ℕ)
        → j.phase ≡ renamed n
        → w.jobs ≡ before ++ j ∷ after
        → Step w (record { cache = lock_and_install j n w.cache; jobs = before ++ after })
    gets :
        (media_id : Str) → Step w (record w { cache = (get sha256 removable w.cache media_id).0 })

  pub data Reach (c : Cache) : World → Type 0 where
    start : Reach c (record { cache = c; jobs = [] })
    later : {w w' : World} → Reach c w → Step w w' → Reach c w'
