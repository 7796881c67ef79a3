-- ===== src/Lib.antt =====
-- CNC-MASM, the corpora management service of the Czech National Corpus: a model of its own logic
-- and the theorems about it.
--
-- The service runs long jobs (synchronizing corpora, building live attributes, indexes, n-grams and
-- exports). A handler puts a job into a queue; a ticker takes jobs from the queue as long as fewer
-- than a given number run, and looks at the dependencies of a job first; a running job sends
-- updates of its record to a goroutine that alone writes the table of jobs, tells the dependents
-- of its end and mails to those who asked for it.
--
-- Files, and the code that they are about:
--   Prelude             numbers, lists, Go strings as byte sequences, Go maps as association lists,
--                       integers
--   Jobs.Queue          jobs/queue.go, on an explicit heap: JobEntry, JobQueue with Size, Enqueue,
--                       getPenultimate, DelayNext, Dequeue, PeekID. Queue.Chain says which list a
--                       queue holds, Queue.Refine and Queue.Delay what the methods do to it
--   Jobs.Deps           jobs/dependecies.go: Add, getParentIDs, findCircle, SetParentFinished,
--                       MustWait, HasFailedParent; proofs in Deps.Circle, Deps.Acyclic and
--                       Deps.Waiting over the relation of Deps.Graph
--   Jobs.Info           the interface GeneralJobInfo of jobs/jobs.go with the shared part of its
--                       contract; Info.Kinds has its six implementations (jobs/dummy.go,
--                       liveattrs/lajob.go, liveattrs/idxjob.go, corpus/job.go, liveattrs/qs/job.go,
--                       liveattrs/db/freqdb/job.go), Info.General joins them, Info.Contract proves
--                       the contract
--   Jobs.Table          the job table of jobs/jobs.go and jobs/actions.go: FindJob,
--                       ClearFinishedJob, clearOldJobs, numOfUnfinishedJobs,
--                       LastUnfinishedJobOfType, and the updates of the table
--   Jobs.Notify         the notification handlers of jobs/actions.go
--   Jobs.Dispatch       jobs/actions.go: EnqueueJob, EqueueJobAfter, dequeueAndRunJob,
--                       dequeueJobAsFailed, the tick and the table goroutine of NewActions.
--                       Dispatch.Effect is about one round, Dispatch.Tick about the limit of jobs
--                       and the lock, Dispatch.Failures about what dependents hear of a failure
--   General.Collections general/collections: Set (with strings for elements; Ordered has what
--                       ToOrderedSlice and Union give), Multidict, SliceContains
--   Cncdb               UpdateCorpusInfo of cncdb/actions.go, with the statements of cncdb/cncdb.go;
--                       Cncdb.Endings says how it ends
--   Corpus.ConcCache    corpus/query/cache.go: Promise with its goroutines, Get,
--                       RestoreUnboundEntries; ConcCache.Waiting is about the entries without a
--                       result
--   Corpus.Info         corpus/corpus.go, GetFirstValidRegistry of corpus/conf.go and the handler of
--                       corpus/actions.go. Info.Attrs is about SUBCORPATTRS, Info.Installed about
--                       errors, Info.Total about what is
--                       returned without one
--   Corpus.DataSync     corpus/datasync.go and the jobs of corpus/actions.go that run it;
--                       DataSync.Newest is about the choice of the source
--   LiveAttrs.Cache     liveattrs/cache/cache.go: EmptyQueryCache. Cache.Keys is about mkKey,
--                       Cache.Linked about the links from corpora to keys
--   LiveAttrs.Sql       liveattrs/db/qbuilder: Sql has the condition for one attribute, which
--                       adhoc/args.go and laquery/args.go share word by word, Sql.Adhoc the
--                       size of an ad-hoc subcorpus, Sql.Laquery the listing of values; also
--                       ImportKey of liveattrs/utils/utils.go, GetRegexpAttrVal of
--                       liveattrs/request/query/query.go and DBInfo of corpus/info.go
--   LiveAttrs.Ngrams    liveattrs/db/freqdb and EstimateProcTimeSecs of liveattrs/db/ptimes.go: records
--                       and columns; Ngrams.Tx has createTables and procLine, Ngrams.Statements the
--                       texts of their statements, Ngrams.Rows the loop of run, Ngrams.Generate
--                       run, generateSync and the job of GenerateAfter. Ngrams.Works, Conserve,
--                       Lemmas and Totals lead to the counts in the table of lemmas; Sublemmas is
--                       about the numbers of sublemmas, Unclosed about the end of the job
--   LiveAttrs.Mixer     liveattrs/subcmixer and liveattrs/actions/subcmixer.go: Mixer.Expressions
--                       (cexpression.go, ctnode.go), Mixer.Categories (addVirtualCats), Mixer.Tree
--                       (getNodeByID, build, NewCategoryTree), Mixer.Request (validate,
--                       importTaskArgs), Mixer.Queries (getCategorySize, getTextSizes, initAB).
--                       Ids, Numbering, Virtual and Built prove that the tree of a request is
--                       built, Panics and Filled are about the queries, Atoms about negation
--   LiveAttrs.Answers   the answer of getAttrValues in liveattrs/actions/common.go, with
--                       groupBibItems, AddListedValue and ExportAttrValues of
--                       liveattrs/request/response/ans.go and ShortenVal of
--                       liveattrs/utils/utils.go; Answers.Totals and Listings count positions,
--                       Exports and Labels are about what is shown
--   LiveAttrs.Documents the queries of liveattrs/db/biblio.go: GetBibliography, FindBibTitles,
--                       GetDocuments and GetNumOfDocuments with buildQuery and attrsToSQL, and the
--                       loop over the rows of documents
--   LiveAttrs.Usage     liveattrs/db/usage.go and fillattrs.go: save, UpdateIndexes, FillAttrs
--   LiveAttrs.Export    liveattrs/qs/qs.go: mkID and processRowsSync; Export.Job has
--                       exportValuesToCouchDBSync and the job of EnqueueExportJob. Export.Ids is
--                       about identifiers, Forms and Loop about one row and the loop, Exported about
--                       the documents
--   LiveAttrs.Laconf    Create of liveattrs/laconf/provider.go; Laconf.Provider has the provider with
--                       its cache, Laconf.Patch liveattrs/laconf/patch.go with applyPatchArgs and
--                       ensureVerticalFile of liveattrs/actions/main.go, Laconf.Handlers and
--                       Handlers.Patching the handlers of liveattrs/actions/conf.go with
--                       liveattrs/qs/cminfer.go. Created, Provider.Saved, Provider.Global and
--                       Handlers.Answers are proofs
--   LiveAttrs.Extraction  createDataFromJobStatus of liveattrs/actions/main.go with SetLiveAttrs of
--                       cncdb/cncdb.go; Extraction.Crash is about the jobs that panic
--   LiveAttrs.Deletion  Delete of liveattrs/actions/data.go, with DeleteTable of
--                       liveattrs/db/auxops.go and UnsetLiveAttrs of cncdb/cncdb.go; Deletion.Endings
--                       says how it ends
--   Tests               runs on concrete data
--
-- The table, the notifications and the dispatcher are generic in the job records: they take an
-- implementation of GeneralJobInfo, and the laws of IsJobInfo where they need them, which
-- Info.Contract proves of every kind.
--
-- A nil pointer, a panic and a loop that does not end are values of the results (Run, Checked), so
-- that a theorem that a method returns excludes them. A loop over the queue has one round more than
-- addresses were handed out, which is enough since the entries of a queue are distinct; findCircle
-- has a round for each entry of the slices of parents, one for the job and one to find a
-- repetition, which is proved to be enough for every map.
--
-- The keys of the cache are joined by colons, and the theorems about it ask for names without one.
-- In the SQL builders a JSON value that is neither a string, a list nor an object is a parameter U
-- with its printed form; a placeholder is a question mark, and the theorems that count placeholders
-- ask for names of corpora and attributes without one, but nothing of the values.
--
-- The database of the n-gram generator is a parameter: the answers to its statements, and the state
-- they leave. What MySQL documents of INSERT and UPDATE on the table of lemmas is the record
-- LemmaTable, and that it refuses nothing but duplicate rows is the record Works; the tests have an
-- instance of both. Floats, regular expressions, the transformation of tags and the clock are
-- parameters too. Occurrences and the numbers of nodes are not negative.
--
-- The files of the configurations are an interface, and that a file has what was written to it
-- without an error is the record Keeps; pointers of the provider are addresses of a heap,
-- so that a patch of a configuration is seen by all who hold it. That the store of the exported
-- documents takes what it is given is the record Takes. An error of ExtractData, which is not of this
-- repository, comes with a nil channel.
--
-- Files, Manatee, rsync and the CNC database are parameters of Corpus and Cncdb. What is documented of
-- them is the record IsSorted (a list of files has the latest one first) and the record IsClosed (a
-- transaction that has been rolled back cannot be committed); the record Answers says that a run
-- meets no error but that of the size of a corpus. The tests have instances of all three.
--
-- Times are numbers of nanoseconds and the current time is an argument. A map is a list of entries,
-- and a loop over it takes them in the order of the list, of which the theorems assume nothing.
-- Goroutines are operations in any order; the mutex of the queue is a Boolean of the state.
--
-- Not modelled: the sizes of the categories of the mixer and its linear program, the pages of
-- documents; Manatee, SQL, HTTP, file and mail libraries and the handlers that only call them, the
-- capacity of channels and the lock of the table, JSON and gob.
pub mod Prelude
pub mod General
pub mod Cncdb
pub mod Corpus
pub mod Jobs
pub mod LiveAttrs
mod Tests
