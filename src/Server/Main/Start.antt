-- ===== src/Server/Main/Start.antt =====
-- The limits that the server runs with, from its start on.
use cppsim.Prelude.{
  ℕ, Bool, List, [], ◌∷◌, Option, if_intro, inl, inr, Text, is_empty, ltb, ◌+◌, ◌*◌,
}
use cppsim.Json.{Floats, JsonLib}
use cppsim.Server.Config.{second}
use cppsim.Server.RuntimeConfig.{RuntimeConfig, load_from_file, reload}
use cppsim.Server.RuntimeConfig.Ranges.{InRange, load_from_file_range}
use cppsim.Server.Main.{config_path, load_config}

-- A call of reload: what the file holds, the time of the call and the time after the load.
pub record Reload : Type 0 where
  pub file : Option Text
  pub now : ℕ
  pub loaded : ℕ

module _ {F : Floats} (L : JsonLib F) where
  unfoldable pub reload_all : List Reload → RuntimeConfig → RuntimeConfig
  reload_all [] c = c
  reload_all (r ∷ rs) c = reload_all rs (reload L r.file r.now r.loaded c).0

  load_from_file-InRange :
      (path : Text) (file : Option Text) (now : ℕ) (c : RuntimeConfig)
      → InRange c.limits
      → InRange (load_from_file L path file now c).0.limits
  load_from_file-InRange path file now c h = elim (load_from_file_range L path file now c) [
    | inl (_, r, _) ↦ r
    | inr (_, e) ↦ rw e h
  ]

  reload-InRange :
      (r : Reload) (c : RuntimeConfig)
      → InRange c.limits
      → InRange (reload L r.file r.now r.loaded c).0.limits
  unfolding reload
  reload-InRange r c h =
      let P : RuntimeConfig × Bool → Type 0 = λ s. InRange s.0.limits in
      if_intro P (is_empty c.config_path) (λ _. h)
        (λ _.
          if_intro P (ltb r.now (c.last_reload_time + 5 * second)) (λ _. h)
            (λ _. load_from_file-InRange c.config_path r.file r.loaded c h))

  reload_all-InRange :
      (rs : List Reload) (c : RuntimeConfig) → InRange c.limits → InRange (reload_all rs c).limits
  unfolding reload_all
  reload_all-InRange [] c h = h
  reload_all-InRange (r ∷ rs) c h = reload_all-InRange rs _ (reload-InRange r c h)

  load_config-InRange :
      (exists : Bool) (file : Option Text) (now : ℕ) (c : RuntimeConfig)
      → InRange c.limits
      → InRange (load_config L exists file now c).limits
  unfolding load_config
  load_config-InRange exists file now c h =
      if_intro (λ (d : RuntimeConfig). InRange d.limits) exists
        (λ _. load_from_file-InRange config_path file now c h) (λ _. h)

  -- Started with limits in their ranges, as the defaults are, the server has limits in their ranges
  -- after the start and after any reloads, whatever the file held each time, or if it was missing.
  pub limits_stay-InRange :
      (exists : Bool) (file : Option Text) (now : ℕ) (c : RuntimeConfig) (rs : List Reload)
      → InRange c.limits
      → InRange (reload_all rs (load_config L exists file now c)).limits
  limits_stay-InRange exists file now c rs h =
      reload_all-InRange rs _ (load_config-InRange exists file now c h)
