-- ===== src/Events.antt =====
-- src/events.rs and the stream of src/events_api.rs. The broadcast channel is kept as the trace
-- of what was handed to `Sender::send`, oldest first.
pub mod Interleaving
pub mod Sequence
use executorch_bencher.Prelude.{
  ℕ, ◌+◌, ◌%◌, ◌^◌, ℤ, String, Bool, Option, List, [], ◌∷◌, ◌++◌, Result, ok, err,
}
use executorch_bencher.Domain.{ExitStatus, CorrectnessResult, DeviceClass, Platform}
use executorch_bencher.Externals.{Externals}
use executorch_bencher.ArtifactKind.{ArtifactKind}

module _ (x : Externals) where
  open x use {Uuid, DateTime, F64}

  pub record RunCreatedEvent : Type 0 where
    pub id : Uuid
    pub started_at : DateTime
    pub finished_at : Option DateTime
    pub repetition : ℤ
    pub platform : Platform
    pub device_class : DeviceClass
    pub device_serial : String
    pub device_model : Option String
    pub model_asset_id : Uuid
    pub model_original_name : String
    pub git_commit_sha : String
    pub git_dirty : Bool
    pub git_branch : Option String
    pub exit_status : ExitStatus
    pub correctness_result : CorrectnessResult
    pub prefill_tokens_per_sec : F64
    pub decode_tokens_per_sec : Option F64

  pub record ArtifactCreatedEvent : Type 0 where
    pub id : Uuid
    pub kind : ArtifactKind
    pub sha256 : String
    pub size_bytes : ℤ

  pub record ModelRegisteredEvent : Type 0 where
    pub id : Uuid
    pub original_name : String
    pub sha256 : String

  pub data Event : Type 0 where
    run_created : RunCreatedEvent → Event
    artifact_created : ArtifactCreatedEvent → Event
    model_registered : ModelRegisteredEvent → Event

module _ {x : Externals} where
  unfoldable pub event_name : Event x → String
  event_name (run_created e) = "run.created"
  event_name (artifact_created e) = "artifact.created"
  event_name (model_registered e) = "model.registered"

-- The bus does not look into the events that it carries.
module _ {ℓ} (A : Type ℓ) where
  pub record Published : Type ℓ where
    pub seq : ℕ
    pub event : A

  pub record EventBus : Type ℓ where
    pub seq : ℕ
    pub sent : List Published

module _ {ℓ} {A : Type ℓ} where
  -- `EventBus::new`
  abbrev pub empty_bus : EventBus A
  empty_bus = record { seq = 0; sent = [] }

  -- `self.seq.fetch_add(1, SeqCst) + 1` on an `AtomicU64`
  unfoldable pub next_seq : EventBus A → ℕ
  next_seq bus = (bus.seq + 1) % 2 ^ 64

  unfoldable pub publish : EventBus A → A → EventBus A × ℕ
  unfolding next_seq
  publish bus event =
      let seq = next_seq bus in
      (record { seq = seq; sent = bus.sent ++ record { seq = seq; event = event } ∷ [] }, seq)

  -- `take_while(!Lagged).filter_map(ok)`: a receiver's items are events, or one notice that the
  -- receiver fell behind and how many events it missed.
  unfoldable pub stream_events : List (Result ℕ (Published A)) → List (Published A)
  stream_events [] = []
  stream_events (ok published ∷ rest) = published ∷ stream_events rest
  stream_events (err missed ∷ rest) = []
