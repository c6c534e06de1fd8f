-- ===== src/Vsphere/Session/Choices.antt =====
-- virtualmachine/vsphere/util.go: resolveAnswerAndOptions and the method answerQuestion. The order in
-- which the loop takes the entries of the map QuestionResponses is that of the list.
use libretto.Base.{
  String, Bool, true, false, Option, none, some, List, [], ◌∷◌, ◌<>◌, if◌then◌else◌,
}
use libretto.Go.Error.{new, message}
use libretto.Go.Result.{Reply, answer, failure}
use libretto.Go.Strings.{trim_space}
use libretto.Go.Action.{◌>>=◌, ◌>>◌, pure, fail, attempt, get, request}
use libretto.Vsphere.Api.{Cloud, Method, MoVm, Question, answer_question}

module _ {F : Type 0} (cloud : Cloud F) where
  -- The loop over the choices, with the answer and the options so far.
  unfoldable pub resolve_loop : List (String × String) → String → String → String → String × String
  resolve_loop [] ans resolved options = (resolved, options)
  resolve_loop ((key, summary) ∷ choices) ans resolved options =
      let resolved' = if cloud.equal_fold summary ans then key else resolved in
      resolve_loop choices ans resolved' (options <> "(" <> key <> ") " <> summary <> " ")

  unfoldable pub resolve_answer_and_options : List (String × String) → String → String × String
  unfolding resolve_loop
  resolve_answer_and_options choices ans =
      let r = resolve_loop choices ans ans "" in (r.0, trim_space r.1)

  abbrev pub answered : String → Question → String → Reply (Unit {0}) → Method F (Unit {0})
  answered ans q options (answer _) = pure tt
  answered ans q options (failure e) = fail (
      new (
        "error with answer "
        <> cloud.format ans
        <> " to question "
        <> cloud.format q.text
        <> ": "
        <> message e
        <> ". Valid answers: "
        <> options))

  unfoldable pub answer_vsphere_question : MoVm → Question → String → Method F (Unit {0})
  unfolding resolve_answer_and_options
  answer_vsphere_question mo q intended = do
    let r = resolve_answer_and_options q.choices intended
    reply ← attempt (
        request (answer_question mo.self q.id r.0) (λ log. cloud.answer_reply log mo.self q.id r.0))
    answered r.0 q r.1 reply

  abbrev pub matched : MoVm → Question → String → Reply Bool → Method F (Unit {0})
  matched mo q intended (failure e) =
      fail (new ("error while parsing automated responses: " <> message e))
  matched mo q intended (answer false) = pure tt
  matched mo q intended (answer true) = answer_vsphere_question mo q intended

  unfoldable pub answer_loop : MoVm → Question → List (String × String) → Method F (Unit {0})
  unfolding answer_vsphere_question
  answer_loop mo q [] = pure tt
  answer_loop mo q ((qre, intended) ∷ responses) = do
    matched mo q intended (cloud.match_string qre q.text)
    answer_loop mo q responses

  abbrev pub asked : MoVm → Option Question → Method F (Unit {0})
  asked mo none = pure tt
  asked mo (some q) = do vm ← get; answer_loop mo q vm.question_responses

  unfoldable pub answer_question_of : MoVm → Method F (Unit {0})
  unfolding answer_loop
  answer_question_of mo = asked mo mo.question
