-- ===== src/Response/Chunks.antt =====
-- go/response.go, `toOpenAIChunks`: a buffered answer as the frames of a stream.
use cmdcode_go.Base.{
  ℕ, suc, String, ◌==◌, Bool, true, false, none, List, [], ◌∷◌, ◌++◌, if◌then◌else◌,
}
use cmdcode_go.Response.{
  Accumulated, Tool, Body, Frame, Framer, content, reasoning_content, nothing, frame, with_role,
  final_frame, tool_body, openai_usage,
}

-- The framer and the chunks so far.
abbrev pub add_chunk : Body → Framer × List Frame → Framer × List Frame
add_chunk body (f, chunks) = (with_role f, chunks ++ frame f body none none ∷ [])

abbrev pub add_unless : Bool → Body → Framer × List Frame → Framer × List Frame
add_unless true body p = p
add_unless false body p = add_chunk body p

-- `fresh` is the identifier for a call that has none.
abbrev pub add_tools : String → ℕ → List Tool → Framer × List Frame → Framer × List Frame
add_tools fresh i [] p = p
add_tools fresh i (t ∷ ts) p =
    add_tools fresh (suc i) ts (add_chunk (tool_body i t.id t.name t.input fresh) p)

abbrev pub close_chunks : Accumulated → Framer × List Frame → List Frame
close_chunks a (f, chunks) =
    chunks
    ++ ((if f.sent_role then [] else frame f nothing none none ∷ [])
        ++ final_frame f a.finish (openai_usage a) ∷ [])

abbrev pub texts_of : Accumulated → Framer → Framer × List Frame
texts_of a f =
    add_unless (a.text == "") (content a.text)
      (add_unless (a.reasoning == "") (reasoning_content a.reasoning) (f, []))

unfoldable pub to_openai_chunks : String → Framer → Accumulated → List Frame
unfolding tool_body
to_openai_chunks fresh f a = close_chunks a (add_tools fresh 0 a.tool_calls (texts_of a f))
