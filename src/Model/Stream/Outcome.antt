-- ===== src/Model/Stream/Outcome.antt =====
-- A translation from its start to its terminal event.
use linguamesh_linux.Prelude.{
  ◌≡◌, refl, arith, List, Bool, true, ◌++◌, false, ◌∷◌, not, [], is_empty, ap, ◌∙◌,
}
use linguamesh_linux.Domain.{Domain, EventBody}
use linguamesh_linux.Model.Stream.{receive, accepts, is_end, texts}
use linguamesh_linux.Model.Translation.{apply_translation_event, begin_translation, streaming}
use linguamesh_linux.Model.State.{AppState}
use linguamesh_linux.Prelude.Text.{Text}
use linguamesh_linux.Model.Status.{is_ok, AppStatus}
use linguamesh_linux.Model.Stream.Protocol.{accepts_iff_Stream}

-- The status, and the mark of an incomplete output, that a terminal event leaves.
abbrev pub final_status : {U F : Type 0} → EventBody U F → AppStatus
final_status (EventBody.completed _) = AppStatus.completed
final_status EventBody.cancelled = AppStatus.cancelled
final_status _ = AppStatus.failed

abbrev pub keeps_partial : {U F : Type 0} → EventBody U F → Text → Bool
keeps_partial (EventBody.completed _) t = false
keeps_partial _ t = not (is_empty t)

receive-append :
    {d : Domain} (es fs : List d.Event) (s : AppState d)
    → receive (es ++ fs) s ≡ receive fs (receive es s)
unfolding receive
receive-append [] fs s = refl
receive-append (e ∷ es) fs s = receive-append es fs (apply_translation_event e s).0

accepts-append :
    {d : Domain} (es fs : List d.Event) (s : AppState d)
    → accepts (es ++ fs) s ≡ true
    → (accepts es s ≡ true) × (accepts fs (receive es s) ≡ true)
unfolding accepts receive
accepts-append [] fs s h = (refl, h)
accepts-append (e ∷ es) fs s h =
    let rest = accepts-append es fs (apply_translation_event e s).0 in ground (arith, rest)

end_state :
    {d : Domain} (e : d.Event) (s : AppState d)
    → is_ok (apply_translation_event e s).1 ≡ true
    → is_end (d.body e) ≡ true
    → let s' = (apply_translation_event e s).0 in
      (s'.output ≡ s.output)
      × (s'.status ≡ final_status (d.body e))
      × (s'.partial_output ≡ keeps_partial (d.body e) s.output)
unfolding apply_translation_event
end_state e s h b = ground arith

started_streaming :
    {d : Domain} (s : AppState d)
    → is_ok (begin_translation s).1 ≡ true
    → (begin_translation s).0 ≡ streaming s
unfolding begin_translation
started_streaming s h = ground arith

accepts_one :
    {d : Domain} (e : d.Event) (s : AppState d)
    → accepts (e ∷ []) s ≡ true
    → is_ok (apply_translation_event e s).1 ≡ true
unfolding accepts
accepts_one e s h = ground arith

stream_outcome :
    {d : Domain} (s : AppState d) (es : List d.Event) (e : d.Event)
    → accepts (es ++ e ∷ []) (streaming s) ≡ true
    → is_end (d.body e) ≡ true
    → let f = receive (es ++ e ∷ []) (streaming s) in
      (f.output ≡ texts d es)
      × (f.status ≡ final_status (d.body e))
      × (f.partial_output ≡ keeps_partial (d.body e) (texts d es))
unfolding receive
stream_outcome {d} s es e b c =
    let (first, last) = accepts-append es (e ∷ []) (streaming s) b in
    let (iff, shows) = accepts_iff_Stream (streaming s) es refl refl in
    let shown : (receive es (streaming s)).output ≡ texts d es = shows (iff.0 first) in
    let (o, st, p) = end_state e (receive es (streaming s)) (accepts_one e _ last) c in
    let split = receive-append es (e ∷ []) (streaming s) in
    (
      ap (λ r. r.output) split ∙ o ∙ shown,
      ap (λ r. r.status) split ∙ st,
      ap (λ r. r.partial_output) split ∙ p ∙ ap (keeps_partial (d.body e)) shown,
    )

-- A translation that starts and receives a list of events that it takes, the last of them
-- terminal, ends with the text of the stream as its output; its status is the one of the
-- terminal event; and the output is marked incomplete exactly if the event is no completion
-- and there is some text.
pub translation_outcome :
    {d : Domain} (s : AppState d) (es : List d.Event) (e : d.Event)
    → is_ok (begin_translation s).1 ≡ true
    → accepts (es ++ e ∷ []) (begin_translation s).0 ≡ true
    → is_end (d.body e) ≡ true
    → let f = receive (es ++ e ∷ []) (begin_translation s).0 in
      (f.output ≡ texts d es)
      × (f.status ≡ final_status (d.body e))
      × (f.partial_output ≡ keeps_partial (d.body e) (texts d es))
translation_outcome {d} s es e b a c =
    let start = started_streaming s b in
    let (o, st, p) = stream_outcome s es e (rw start at a) c in
    let f = ap (receive (es ++ e ∷ [])) start in
    (ap (λ r. r.output) f ∙ o, ap (λ r. r.status) f ∙ st, ap (λ r. r.partial_output) f ∙ p)
