-- ===== src/Capture.antt =====
-- crates/camrtsp-capture/src/lib.rs: `NativeCamera`, for any backend, and the backend of a platform
-- that has none.
use camrtsp.Common.{◌≡◌, List, Result, ok, err}
use camrtsp.Core.{CamRtspError, CameraDescriptor, StreamConfig, NegotiatedStreamConfig, validate}

-- What a backend does, on a state of its own.
pub record Backend (S : Type 0) : Type 0 where
  pub enumerate : S → Result CamRtspError (List CameraDescriptor)
  pub start : StreamConfig → S → Result CamRtspError NegotiatedStreamConfig × S
  pub request_keyframe : S → Result CamRtspError (Unit {0}) × S
  pub stop : S → Result CamRtspError (Unit {0}) × S

module _ {S : Type 0} (backend : Backend S) where
  unfoldable pub enumerate : S → Result CamRtspError (List CameraDescriptor)
  enumerate s = backend.enumerate s

  -- `config.validate()?` before the backend
  unfoldable pub start : StreamConfig → S → Result CamRtspError NegotiatedStreamConfig × S
  unfolding validate
  start config s = elim (validate config) [ err e ↦ (err e, s) | ok _ ↦ backend.start config s ]

  unfoldable pub request_keyframe : S → Result CamRtspError (Unit {0}) × S
  request_keyframe s = backend.request_keyframe s

  unfoldable pub stop : S → Result CamRtspError (Unit {0}) × S
  stop s = backend.stop s

-- What a failed start of the backend keeps, a failed start keeps.
abbrev validated {ℓ} :
    {S : Type ℓ}
    → S
    → Result CamRtspError (Unit {0})
    → Result CamRtspError NegotiatedStreamConfig × S
    → Result CamRtspError NegotiatedStreamConfig × S
validated s valid started = elim valid [ err e ↦ (err e, s) | ok _ ↦ started ]

validated_keeps {ℓ κ} :
    {S : Type ℓ} (P : S → Type κ) (s : S) (valid : Result CamRtspError (Unit {0}))
    (started : Result CamRtspError NegotiatedStreamConfig × S) (e : CamRtspError)
    → P s
    → (started.0 ≡ err e → P started.1)
    → (validated s valid started).0 ≡ err e
    → P (validated s valid started).1
validated_keeps P s (err e') started e h k failed = h
validated_keeps P s (ok _) started e h k failed = k failed

pub start_keeps {ℓ} :
    {S : Type 0} (backend : Backend S) (P : S → Type ℓ) (config : StreamConfig) (s : S)
    (e : CamRtspError)
    → P s
    → ((backend.start config s).0 ≡ err e → P (backend.start config s).1)
    → (start backend config s).0 ≡ err e
    → P (start backend config s).1
unfolding start
start_keeps backend P config s e h k failed =
    validated_keeps P s (validate config) (backend.start config s) e h k failed

abbrev pub not_compiled : CamRtspError
not_compiled = "this platform backend has not been compiled yet"

-- The backend of any other platform.
abbrev pub missing_backend : Backend (Unit {0})
missing_backend = record {
  enumerate = λ s. err not_compiled;
  start = λ config s. (err not_compiled, s);
  request_keyframe = λ s. (err not_compiled, s);
  stop = λ s. (ok tt, s);
}
