-- ===== src/Startup/Choices.antt =====
-- The switches of main.go on a name: what they accept.
use userd.Common.{String, ◌≡◌, ◌↔◌, ◌⊎◌, inl, inr, refl, text_cases, ◌≢◌, List, [], ◌∷◌}
use userd.Exec.{Outcome, ok}
use userd.Part.Ready.{
  IsReady, and_then-IsReady, and_then_always, or_panic-IsReady, if_always, if_IsReady, last_IsReady,
}
use userd.EventStream.{
  Stream, log_event_stream, Switches, Broadcaster, opened, new_file_log_event_stream, new_stream,
  add_streams,
}
use userd.Startup.{
  etcd_storage, Flags, Environment, uuid, etcd_log, user_storage, id_factory, switches,
}

module _ (flags : Flags) where
  pub id_factory-IsReady :
      IsReady (id_factory flags)
      ↔ ((flags.of_ids.idfactory ≡ "uuid") ⊎ (flags.of_ids.idfactory ≡ "seq"))
  unfolding id_factory
  id_factory-IsReady =
      if_always flags.of_ids.idfactory "uuid" _ _ (uuid, refl)
        (last_IsReady flags.of_ids.idfactory "seq" _ _ (λ e. e) (λ e. ((λ _. e), (λ _. (_, refl)))))

module _ (flags : Flags) (env : Environment) where
  -- Where etcd logs to, if it does.
  abbrev pub IsLogged : Type 0
  IsLogged =
      (flags.of_storage.storage_etcd_log ≡ "")
      ⊎ ((flags.of_storage.storage_etcd_log ≡ "-") ⊎ (env.etcd_log_opened ≡ ok tt))

  abbrev pub IsStorage : Type 0
  IsStorage =
      (flags.of_storage.storage ≡ "redis")
      ⊎ (((flags.of_storage.storage ≡ "etcd") × IsLogged) ⊎ (flags.of_storage.storage ≡ "memory"))

module _ (split : String → List String) (flags : Flags) (env : Environment) where
  etcd_log-IsReady : IsReady (etcd_log flags env) ↔ IsLogged flags env
  unfolding etcd_log
  etcd_log-IsReady =
      if_always flags.of_storage.storage_etcd_log "" _ _ (tt, refl)
        (if_always flags.of_storage.storage_etcd_log "-" _ _ (tt, refl)
          (or_panic-IsReady env.etcd_log_opened))

  etcd_storage-IsReady : IsReady (etcd_storage split flags env) ↔ IsLogged flags env
  unfolding etcd_storage
  etcd_storage-IsReady = and_then_always _ _ etcd_log-IsReady (λ _. (_, refl))

  pub user_storage-IsReady : IsReady (user_storage split flags env) ↔ IsStorage flags env
  unfolding user_storage
  user_storage-IsReady =
      if_always flags.of_storage.storage "redis" _ _ (_, refl)
        (if_IsReady flags.of_storage.storage "etcd" _ _ (λ h. h.0) (λ h e. cc)
          (λ e. ((λ r. (e, etcd_storage-IsReady.0 r)), (λ h. etcd_storage-IsReady.1 h.1)))
          (last_IsReady flags.of_storage.storage "memory" _ _ (λ e. e)
            (λ e. ((λ _. e), (λ _. (_, refl))))))

-- A stream that the flags allow.
abbrev pub IsStream : Switches → String → Type 0
IsStream switches name =
    (name ≡ "redis")
    ⊎ (((name ≡ "cores") × (switches.bus ≡ ok tt))
        ⊎ (((name ≡ "log")
              × ((switches.log_file ≡ "-")
                  ⊎ ((switches.log_file ≡ "") ⊎ (switches.log_opened ≡ ok tt))))
            ⊎ (name ≡ "none")))

abbrev pub AreStreams : Switches → List String → Type 0
AreStreams switches [] = Unit {0}
AreStreams switches (name ∷ names) = IsStream switches name × AreStreams switches names

module _ (switches : Switches) where
  opened-IsReady :
      (r : Outcome (Unit {0})) (stream : Stream) → IsReady (opened r stream) ↔ (r ≡ ok tt)
  opened-IsReady r stream = and_then_always _ _ (or_panic-IsReady r) (λ _. (_, refl))

  new_file_log_event_stream-IsReady :
      IsReady (new_file_log_event_stream switches)
      ↔ ((switches.log_file ≡ "-") ⊎ ((switches.log_file ≡ "") ⊎ (switches.log_opened ≡ ok tt)))
  unfolding new_file_log_event_stream
  new_file_log_event_stream-IsReady = elim (text_cases switches.log_file "-") [
    | inl (same, e) ↦ rw same ((λ _. inl e), (λ _. (_, refl)))
    | inr (differs, ne) ↦
        let rest =
          if_always switches.log_file "" _ _ (_, refl)
            (opened-IsReady switches.log_opened log_event_stream) in
        rw differs ((λ r. inr (rest.0 r)), (elim [ inl e ↦ absurd (ne e) | inr h ↦ rest.1 h ]))
  ]

  beyond_cores :
      (name : String)
      → (((name ≡ "log")
            × ((switches.log_file ≡ "-")
                ⊎ ((switches.log_file ≡ "") ⊎ (switches.log_opened ≡ ok tt))))
          ⊎ (name ≡ "none"))
      → name ≢ "cores"
  beyond_cores name (inl h) e = cc
  beyond_cores name (inr h) e = cc

  new_stream-IsReady : (name : String) → IsReady (new_stream switches name) ↔ IsStream switches name
  unfolding new_stream
  new_stream-IsReady name =
      if_always name "redis" _ _ (_, refl)
        (if_IsReady name "cores" _ _ (λ h. h.0) (λ h e. beyond_cores name h e)
          (λ e. ((λ r. (e, (opened-IsReady _ _).0 r)), (λ h. (opened-IsReady _ _).1 h.1)))
          (if_IsReady name "log" _ _ (λ h. h.0) (λ h e. cc)
            (λ e. (
              (λ r. (e, new_file_log_event_stream-IsReady.0 r)),
              (λ h. new_file_log_event_stream-IsReady.1 h.1),
            ))
            (last_IsReady name "none" _ _ (λ e. e) (λ e. ((λ _. e), (λ _. (_, refl)))))))

  pub add_streams-IsReady :
      (names : List String) (b : Broadcaster)
      → IsReady (add_streams switches names b) ↔ AreStreams switches names
  unfolding add_streams
  add_streams-IsReady [] b = ((λ _. tt), (λ _. (_, refl)))
  add_streams-IsReady (name ∷ names) b =
      and_then-IsReady _ _ (new_stream-IsReady name) (λ stream. add_streams-IsReady names _)
